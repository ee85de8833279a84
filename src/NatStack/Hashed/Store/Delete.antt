-- ===== src/NatStack/Hashed/Store/Delete.antt =====
-- `nat_timeout` and `nat_table_destroy` of nat_new_2.c on the memory.
use net_working_mini_net.Base.{
  ℕ, zero, suc, ◌≡◌, refl, inl, inr, Bool, not, true, List, keep, ◌==◌, arith, Bool-cases,
}
use net_working_mini_net.Hash.{hash_8bits}
use net_working_mini_net.Buckets.{delete_in, set_bucket}
use net_working_mini_net.ListHead.{Ptr}
use net_working_mini_net.ListHead.Chain.{has}
use net_working_mini_net.Rings.Stores.{IsEnough}
use net_working_mini_net.Rings.Delete.{has-keep, delete_lists-Stores}
use net_working_mini_net.NatStack.{Mapping, Memory, Table}
use net_working_mini_net.NatStack.Expiry.{timeout_from}
use net_working_mini_net.NatStack.Expiry.Rings.{timeout_from-Holds}
use net_working_mini_net.NatStack.Hashed.{is_over, nat_timeout}
use net_working_mini_net.NatStack.Hashed.Start.{nat_table_destroy}
use net_working_mini_net.NatStack.Hashed.Store.{nat_timeout_at, nat_table_destroy_at}
use net_working_mini_net.NatStack.Hashed.Store.Holds.{Kept}

-- A deletion adds no node to any list.
has-delete_in :
    (p : Ptr → Bool) (a : Ptr) (left i : ℕ) (nodes : ℕ → List Ptr) (j : ℕ)
    → has a (delete_in p left i nodes j) ≡ true
    → has a (nodes j) ≡ true
unfolding delete_in set_bucket
has-delete_in p a zero i nodes j h = h
has-delete_in p a (suc left) i nodes j h =
    let later =
      has-delete_in p a left (suc i) (set_bucket nodes i (keep (λ e. not (p e)) (nodes i))) j h in
    elim (Bool-cases (j == i)) [
      | inl e ↦
          let eq : i ≡ j = ground arith in
          rw eq at (has-keep (λ e. not (p e)) a (nodes i) (rw e at later))
      | inr e ↦ rw e at later
    ]

timeout_from_entry :
    (over : Mapping → Bool) (heads : ℕ → Ptr) (fuel left i : ℕ) (m : Memory)
    → (timeout_from over heads fuel left i m).store.entry ≡ m.store.entry
unfolding timeout_from
timeout_from_entry over heads fuel zero i m = refl
timeout_from_entry over heads fuel (suc left) i m =
    timeout_from_entry over heads fuel left (suc i) _

module _ (heads : ℕ → Ptr) (fuel : ℕ) (m : Memory) (t : Table) (nodes : ℕ → List Ptr)
    (r : Kept heads m t nodes) (enough : IsEnough fuel nodes) where
  pub nat_timeout_at-Kept :
      (now : ℕ)
      → Kept heads
          (nat_timeout_at heads fuel now m)
          (nat_timeout now t)
          (delete_in (λ a. is_over now (m.store.entry a)) hash_8bits 0 nodes)
  unfolding nat_timeout_at nat_timeout
  nat_timeout_at-Kept now = record {
    holds =
        timeout_from-Holds (is_over now) heads fuel hash_8bits 0 m t nodes r.holds enough
          (omega arith);
    addressed = λ i b a h.
        rw (timeout_from_entry (is_over now) heads fuel hash_8bits 0 m)
          (r.addressed i b a (has-delete_in _ a hash_8bits 0 nodes i h));
  }

  pub nat_table_destroy_at-Kept :
      Kept heads
        (nat_table_destroy_at heads fuel m)
        (nat_table_destroy t)
        (delete_in (λ a. true) hash_8bits 0 nodes)
  unfolding nat_table_destroy_at nat_table_destroy
  nat_table_destroy_at-Kept = record {
    holds = record {
      stores =
          delete_lists-Stores heads fuel (λ e. true) hash_8bits 0 m.store t.nat_mapping_list nodes
            r.holds.stores enough (omega arith);
      internal = r.holds.internal;
      external = r.holds.external;
      ports = r.holds.ports;
    };
    addressed = λ i b a h. r.addressed i b a (has-delete_in _ a hash_8bits 0 nodes i h);
  }
