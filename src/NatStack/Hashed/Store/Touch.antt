-- ===== src/NatStack/Hashed/Store/Touch.antt =====
-- The time of an entry, set through its pointer.
use net_working_mini_net.Base.{
  ℕ, ◌≡◌, refl, ap, inl, inr, true, false, List, ◌==◌, arith, Bool-cases,
}
use net_working_mini_net.ListHead.{Ptr}
use net_working_mini_net.Rings
use net_working_mini_net.Rings.{set_entry}
use net_working_mini_net.Rings.Write.{write-Stores}
use net_working_mini_net.NatStack.{Mapping, Memory, Table}
use net_working_mini_net.NatStack.Hashed.{touch, touch_entry}
use net_working_mini_net.NatStack.Hashed.Store.{set_time}
use net_working_mini_net.NatStack.Hashed.Store.Holds.{Kept}

module _ (s : Rings.Store Mapping) (now : ℕ) (a b : Ptr) (addressed : (s.entry b).addr ≡ b) where
  same_entry :
      (set_entry s a (record (s.entry a) { update_time = now })).entry b
      ≡ touch_entry a now (s.entry b)
  unfolding set_entry touch_entry
  same_entry = elim (Bool-cases (b == a)) [
    | inl e ↦
        let same : a ≡ b = ground arith in
        let known : ((s.entry b).addr == a) ≡ true = rw addressed e in
        rw (known, e) (ap (λ c. record (s.entry c) { update_time = now }) same)
    | inr e ↦ let known : ((s.entry b).addr == a) ≡ false = rw addressed e in rw (known, e) refl
  ]

  same_addr : ((set_entry s a (record (s.entry a) { update_time = now })).entry b).addr ≡ b
  unfolding set_entry
  same_addr = elim (Bool-cases (b == a)) [
    | inl e ↦ let same : a ≡ b = ground arith in rw (e, same) addressed
    | inr e ↦ rw e addressed
  ]

pub set_time-Kept :
    (heads : ℕ → Ptr) (now : ℕ) (a : Ptr) (m : Memory) (t : Table) (nodes : ℕ → List Ptr)
    → Kept heads m t nodes
    → Kept heads (set_time now a m) (touch a now t) nodes
unfolding set_time touch set_entry
set_time-Kept heads now a m t nodes r = record {
  holds = record {
    stores =
        write-Stores heads m.store t.nat_mapping_list nodes r.holds.stores _ (touch_entry a now)
          (λ i b c h. unfold set_entry in same_entry m.store now a c (r.addressed i b c h));
    internal = r.holds.internal;
    external = r.holds.external;
    ports = r.holds.ports;
  };
  addressed = λ i b c h. same_addr m.store now a c (r.addressed i b c h);
}
