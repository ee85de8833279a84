-- ===== src/NatStack/Expiry/Rings.antt =====
-- The timeout loops on the memory do what they do on the lists.
use mathlib.Core.List.{append_assoc}
use net_working_mini_net.Base.{
  ℕ, zero, suc, ◌+◌, ◌≤◌, ◌<◌, ◌≡◌, refl, sym, ◌∙◌, inl, inr, Bool, true, false, not, List, [], ◌∷◌,
  ◌++◌, map, keep, length, ◌==◌, ==_refl, arith, Bool-cases,
}
use net_working_mini_net.Hash.{hash_8bits}
use net_working_mini_net.Buckets.{set_bucket, delete_in}
use net_working_mini_net.ListHead.{Ptr, Links, list_delete_entry, for_each_safe, delete_where}
use net_working_mini_net.ListHead.Chain.{IsRing, first, Chain-split, next-first}
use net_working_mini_net.ListHead.Edit.{list_delete_entry-drop, not_has-right}
use net_working_mini_net.Rings.Stores.{IsEnough}
use net_working_mini_net.Rings.Delete.{sweep_list-Stores, sweep_list-IsEnough}
use net_working_mini_net.NatStack.{Mapping, Table, Memory}
use net_working_mini_net.NatStack.Ports.{Pool, free_port}
use net_working_mini_net.NatStack.Expiry.Lists.{expire_list_lem}
use net_working_mini_net.NatStack.Expiry.{
  expire_list, expire_from, timeout_safe, timeout_list, timeout_from,
}
use net_working_mini_net.NatStack.Holds.{Holds}

module _ (over : Mapping → Bool) (pool : Pool) (m : Mapping) (l : List Mapping) where
  freed :
      over m ≡ true
      → (expire_list over pool (m ∷ l)).1 ≡ (expire_list over (free_port pool m.external_port) l).1
  unfolding expire_list
  freed e = rw e refl

  kept : over m ≡ false → (expire_list over pool (m ∷ l)).1 ≡ (expire_list over pool l).1
  unfolding expire_list
  kept e = rw e refl

module _ (over : Mapping → Bool) (entry : Ptr → Mapping) (head : Ptr) where
  -- The links are those of a sweep that deletes the expired mappings.
  timeout_safe-links :
      (fuel : ℕ) (h : Links) (pool : Pool) (pos q : Ptr)
      → (timeout_safe over fuel entry head h pool pos q).0
        ≡ for_each_safe fuel (λ a. over (entry a)) head h pos q
  unfolding timeout_safe for_each_safe
  timeout_safe-links zero h pool pos q = refl
  timeout_safe-links (suc fuel) h pool pos q = elim (Bool-cases (pos == head)) [
    | inl e ↦ rw e refl
    | inr e ↦ rw e (timeout_safe-links fuel _ _ q _)
  ]

  -- The pool is what the same mappings leave in the model.
  timeout_safe-ports :
      (fuel : ℕ) (h : Links) (pool : Pool) (xs ys : List Ptr)
      → IsRing h head (xs ++ ys)
      → length ys < fuel
      → (timeout_safe over fuel entry head h pool (first ys head) (h.next (first ys head))).1
        ≡ (expire_list over pool (map entry ys)).1
  unfolding timeout_safe
  timeout_safe-ports zero h pool xs ys ring f = absurd (omega arith)
  timeout_safe-ports (suc fuel) h pool xs [] ring f = unfold expire_list in rw ==_refl refl
  timeout_safe-ports (suc fuel) h pool xs (y ∷ ys) ring f =
      let (_, c) = Chain-split h head xs y ys head ring.chain in
      let out = not_has-right head xs (y ∷ ys) ring.distinct.0 in
      let e : (y == head) ≡ false = ground arith in
      elim (Bool-cases (over (entry y))) [
        | inl t ↦
            rw (e, t, next-first h y ys head c)
              (timeout_safe-ports fuel (list_delete_entry h y)
                  (free_port pool (entry y).external_port) xs ys
                  (list_delete_entry-drop h head xs y ys ring) (omega arith)
                ∙ sym (freed over pool (entry y) (map entry ys) t))
        | inr t ↦
            rw (e, t, next-first h y ys head c)
              (timeout_safe-ports fuel h pool (xs ++ y ∷ []) ys (rw append_assoc ring) (omega arith)
                ∙ sym (kept over pool (entry y) (map entry ys) t))
      ]

  module _ (fuel : ℕ) (h : Links) (pool : Pool) where
    timeout_list-links :
        (timeout_list over fuel entry head h pool).0
        ≡ delete_where fuel (λ a. over (entry a)) h head
    unfolding timeout_list delete_where
    timeout_list-links = timeout_safe-links fuel h pool _ _

    timeout_list-ports :
        (xs : List Ptr)
        → IsRing h head xs
        → length xs < fuel
        → (timeout_list over fuel entry head h pool).1 ≡ (expire_list over pool (map entry xs)).1
    unfolding timeout_list
    timeout_list-ports xs ring f =
        rw (next-first h head xs head ring.chain) (timeout_safe-ports fuel h pool [] xs ring f)

module _ (over : Mapping → Bool) (heads : ℕ → Ptr) (fuel : ℕ) where
  -- The loops delete in the memory what they delete from the table, and free the same ports.
  pub timeout_from-Holds :
      (left i : ℕ) (m : Memory) (t : Table) (nodes : ℕ → List Ptr)
      → Holds heads m t nodes
      → IsEnough fuel nodes
      → i + left ≤ hash_8bits
      → Holds heads
          (timeout_from over heads fuel left i m)
          (expire_from over left i t)
          (delete_in (λ a. over (m.store.entry a)) left i nodes)
  unfolding timeout_from expire_from delete_in
  timeout_from-Holds zero i m t nodes r f b = r
  timeout_from-Holds (suc left) i m t nodes r f b =
      let s = m.store in
      let p = over in
      let old = timeout_list over fuel s.entry (heads i) s.links m.assigned_ports in
      let new = expire_list over t.assigned_ports (t.nat_mapping_list i) in
      let links = timeout_list-links over s.entry (heads i) fuel s.links m.assigned_ports in
      let ports =
        timeout_list-ports over s.entry (heads i) fuel s.links m.assigned_ports (nodes i)
          (r.stores.ring i (omega arith)) (f i (omega arith)) in
      timeout_from-Holds left (suc i)
        (record m { store = record s { links = old.0 }; assigned_ports = old.1 })
        (record t {
          nat_mapping_list = set_bucket t.nat_mapping_list i new.0;
          assigned_ports = new.1;
        })
        (set_bucket nodes i (keep (λ a. not (p (s.entry a))) (nodes i)))
        (record {
          stores =
              rw (links, expire_list_lem over t.assigned_ports (t.nat_mapping_list i))
                (sweep_list-Stores heads s t.nat_mapping_list nodes r.stores fuel f p i
                  (omega arith));
          internal = r.internal;
          external = r.external;
          ports = ports ∙ rw (r.stores.content i (omega arith), r.ports) refl;
        })
        (sweep_list-IsEnough heads s t.nat_mapping_list nodes r.stores fuel f p i (omega arith))
        (omega arith)
