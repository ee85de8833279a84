-- ===== src/NatStack/Expiry/Lists.antt =====
-- Which mappings the timeout loops delete, and which ports they free.
use mathlib.Core.Path.{subst}
use net_working_mini_net.Base.{
  ℕ, zero, suc, ◌≡◌, refl, sym, ◌∙◌, inl, inr, Bool, not, List, [], ◌∷◌, ◌++◌, arith, keep,
  Bool-cases,
}
use net_working_mini_net.Buckets.{set_bucket, delete_in, entries}
use net_working_mini_net.Buckets.Search.{entries-set_bucket_below}
use net_working_mini_net.Buckets.Removal.{keep-append}
use net_working_mini_net.Rings.Short.{Short, delete_in-Short}
use net_working_mini_net.NatStack.{Mapping, Table}
use net_working_mini_net.NatStack.Ports.{Pool, free_port}
use net_working_mini_net.NatStack.Expiry.{expire_list, expire_from}

-- The pool after the ports of some mappings were passed to `free_port`, as they stand there.
unfoldable pub free_all : Pool → List Mapping → Pool
free_all pool [] = pool
free_all pool (m ∷ l) = free_all (free_port pool m.external_port) l

free_all-append :
    (pool : Pool) (xs ys : List Mapping) → free_all pool (xs ++ ys) ≡ free_all (free_all pool xs) ys
unfolding free_all
free_all-append pool [] ys = refl
free_all-append pool (x ∷ xs) ys = free_all-append (free_port pool x.external_port) xs ys

module _ (over : Mapping → Bool) where
  pub expire_list_lem :
      (pool : Pool) (l : List Mapping)
      → expire_list over pool l ≡ (keep (λ m. not (over m)) l, free_all pool (keep over l))
  unfolding expire_list free_all
  expire_list_lem pool [] = refl
  expire_list_lem pool (m ∷ l) = elim (Bool-cases (over m)) [
    | inl e ↦ rw (e, expire_list_lem (free_port pool m.external_port) l) refl
    | inr e ↦ rw (e, expire_list_lem pool l) refl
  ]

  pub expire_from_lists :
      (left i : ℕ) (t : Table)
      → (expire_from over left i t).nat_mapping_list ≡ delete_in over left i t.nat_mapping_list
  unfolding expire_from delete_in
  expire_from_lists zero i t = refl
  expire_from_lists (suc left) i t =
      let r = expire_list over t.assigned_ports (t.nat_mapping_list i) in
      expire_from_lists left (suc i)
        (record t { nat_mapping_list = set_bucket t.nat_mapping_list i r.0; assigned_ports = r.1 })
      ∙ rw (expire_list_lem t.assigned_ports (t.nat_mapping_list i)) refl

  pub expire_from_pool :
      (left i : ℕ) (t : Table)
      → (expire_from over left i t).assigned_ports
        ≡ free_all t.assigned_ports (keep over (entries left i t.nat_mapping_list))
  unfolding expire_from entries
  expire_from_pool zero i t = unfold free_all in refl
  expire_from_pool (suc left) i t =
      let l = t.nat_mapping_list i in
      let r = expire_list over t.assigned_ports l in
      expire_from_pool left (suc i)
        (record t { nat_mapping_list = set_bucket t.nat_mapping_list i r.0; assigned_ports = r.1 })
      ∙ rw
          (
            entries-set_bucket_below left (suc i) i t.nat_mapping_list r.0 (omega arith),
            expire_list_lem t.assigned_ports l,
            keep-append,
            free_all-append,
          )
          refl

  -- The loops make no list longer.
  pub expire_from-Short :
      (count left i : ℕ) (t : Table)
      → Short count t.nat_mapping_list
      → Short count (expire_from over left i t).nat_mapping_list
  expire_from-Short count left i t short =
      subst (Short count) (sym (expire_from_lists left i t))
        (delete_in-Short over count left i t.nat_mapping_list short)
