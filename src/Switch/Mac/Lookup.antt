-- ===== src/Switch/Mac/Lookup.antt =====
-- The forwarding table as a partial function from addresses to interfaces.
use mathlib.Core.Option
use net_working_mini_net.Base.{
  ℕ, ◌≡◌, sym, ap, ◌∙◌, inl, inr, Bool, none, some, List, arith, if◌then◌else◌, Bool-cases,
}
use net_working_mini_net.Hash.{hash_8bits}
use net_working_mini_net.Buckets.{first_in, entries}
use net_working_mini_net.Buckets.Search.{
  first_in-find, first_in-add_tail_ne, first_in-add_tail_self, entries-add_tail,
}
use net_working_mini_net.Buckets.Removal.{Unique, Unique-insert}
use net_working_mini_net.Switch.{Iface, MacPortEntry, MacPortMap, eq_bytes, eq_bytes_iff}
use net_working_mini_net.Switch.Mac.{entry_has, lookup_port, insert_mac_port}

-- Two entries for one address.
abbrev pub same_mac : MacPortEntry → MacPortEntry → Bool
same_mac a b = entry_has a.mac b

-- No address has two entries.
abbrev pub IsUnique : MacPortMap → Type 0
IsUnique t = Unique same_mac (entries hash_8bits 0 t)

same_mac_comm : (a b : MacPortEntry) → same_mac a b ≡ same_mac b a
unfolding entry_has
same_mac_comm a b = ground (arith, eq_bytes_iff b.mac a.mac, eq_bytes_iff a.mac b.mac)

lookup-none :
    (t : MacPortMap) (mac : List ℕ)
    → lookup_port t mac ≡ none
    → first_in (entry_has mac) hash_8bits 0 t ≡ none
unfolding lookup_port
lookup-none t mac h = (Option.map-eq-none_iff _ _).0 h

-- An insertion of an address that has no entry gives this address its interface, and leaves every
-- other address alone.
pub lookup_port-insert_mac_port :
    (now : ℕ) (t : MacPortMap) (mac : List ℕ) (iface : Iface) (m : List ℕ)
    → lookup_port t mac ≡ none
    → lookup_port (insert_mac_port now t mac iface) m
      ≡ (if eq_bytes mac m then some iface else lookup_port t m)
unfolding lookup_port insert_mac_port
lookup_port-insert_mac_port now t mac iface m out = elim (Bool-cases (eq_bytes mac m)) [
  | inl e ↦
      let same : mac ≡ m = (eq_bytes_iff mac m).0 e in
      rw e (
        ap (Option.map (λ e. e.iface)) (
          first_in-add_tail_self (entry_has m) hash_8bits 0 t
            (record { mac = mac; iface = iface; visited = now }) (omega arith) e
            (lookup-none t m (rw same at out))))
  | inr e ↦ rw e (
      ap (Option.map (λ e. e.iface)) (
        first_in-add_tail_ne (entry_has m) hash_8bits 0 t
          (record { mac = mac; iface = iface; visited = now }) (omega arith) e))
]

-- An insertion of an address that has no entry keeps the addresses unique.
pub insert_mac_port-IsUnique :
    (now : ℕ) (t : MacPortMap) (mac : List ℕ) (iface : Iface)
    → lookup_port t mac ≡ none
    → IsUnique t
    → IsUnique (insert_mac_port now t mac iface)
unfolding insert_mac_port
insert_mac_port-IsUnique now t mac iface out u =
    let e : MacPortEntry = record { mac = mac; iface = iface; visited = now } in
    let (xs, ys, old, new) = entries-add_tail hash_8bits 0 t e (omega arith) in
    let absent = sym (first_in-find (entry_has mac) hash_8bits 0 t) ∙ lookup-none t mac out in
    rw new (Unique-insert same_mac same_mac_comm xs e ys (rw old at u) (rw old at absent))
