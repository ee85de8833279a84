-- ===== src/NatStack/Expiry.antt =====
-- The loops of `nat_timeout`, in nat.c and nat_new_2.c: every mapping that passes a test is deleted, and
-- its port freed as it stands in the mapping. First on lists, then on the lists in memory.
pub mod Lists
pub mod Rings
use net_working_mini_net.Base.{ℕ, zero, suc, ◌==◌, Bool, List, [], ◌∷◌, if◌then◌else◌}
use net_working_mini_net.Buckets.{set_bucket}
use net_working_mini_net.ListHead.{Ptr, Links, list_delete_entry}
use net_working_mini_net.NatStack.{Mapping, Table, Memory}
use net_working_mini_net.NatStack.Ports.{Pool, free_port}

module _ (over : Mapping → Bool) where
  -- One list.
  unfoldable pub expire_list : Pool → List Mapping → List Mapping × Pool
  expire_list pool [] = ([], pool)
  expire_list pool (m ∷ l) =
      let r = expire_list (if over m then free_port pool m.external_port else pool) l in
      (if over m then r.0 else m ∷ r.0, r.1)

  -- The lists from `i` on; `left` of them remain.
  unfoldable pub expire_from : (left i : ℕ) → Table → Table
  unfolding expire_list
  expire_from zero i t = t
  expire_from (suc left) i t =
      let (l, pool) = expire_list t.assigned_ports (t.nat_mapping_list i) in
      expire_from left (suc i)
        (record t { nat_mapping_list = set_bucket t.nat_mapping_list i l; assigned_ports = pool })

  -- The safe loop over one list in memory, from `pos` on: the links and the pool that it leaves. The
  -- fuel bounds its rounds.
  unfoldable pub timeout_safe :
      (fuel : ℕ) (entry : Ptr → Mapping) (head : Ptr) → Links → Pool → (pos q : Ptr) → Links × Pool
  timeout_safe zero entry head h pool pos q = (h, pool)
  timeout_safe (suc fuel) entry head h pool pos q =
      let pool' = if over (entry pos) then free_port pool (entry pos).external_port else pool in
      let h' = (if over (entry pos) then list_delete_entry h pos else h) in
      let rest = timeout_safe fuel entry head h' pool' q (h'.next q) in
      if pos == head then (h, pool) else rest

  unfoldable pub timeout_list :
      (fuel : ℕ) (entry : Ptr → Mapping) (head : Ptr) → Links → Pool → Links × Pool
  unfolding timeout_safe
  timeout_list fuel entry head h pool =
      timeout_safe fuel entry head h pool (h.next head) (h.next (h.next head))

  -- The lists in memory from `i` on.
  unfoldable pub timeout_from : (heads : ℕ → Ptr) (fuel left i : ℕ) → Memory → Memory
  unfolding timeout_list
  timeout_from heads fuel zero i m = m
  timeout_from heads fuel (suc left) i m =
      let (h, pool) = timeout_list fuel m.store.entry (heads i) m.store.links m.assigned_ports in
      timeout_from heads fuel left (suc i)
        (record m { store = record (m.store) { links = h }; assigned_ports = pool })
