-- ===== src/ListHead/Frame.antt =====
-- What the operations of list.h leave as it was: every other list.
use mathlib.Core.List.{append_assoc}
use net_working_mini_net.Base.{
  ℕ, zero, suc, ◌<◌, ◌≡◌, Bool, true, false, inl, inr, List, [], ◌∷◌, ◌++◌, arith, ◌==◌, ==_refl,
  length, Bool-cases,
}
use net_working_mini_net.ListHead.{
  Ptr, Links, set_next, set_prev, list_insert, list_add_tail, list_delete_entry, for_each_safe,
  delete_where,
}
use net_working_mini_net.ListHead.Chain.{
  has, IsRing, last, first, has-append, has-last, ne_of_has, prev-last, Chain-frame, Chain-split,
  next-first,
}
use net_working_mini_net.ListHead.Edit.{
  bypass, has-first, not_has-right, list_delete_entry-bypass, list_delete_entry-drop,
}

-- No address is in both.
abbrev pub Apart : (xs ys : List Ptr) → Type 0
Apart xs ys = (a : Ptr) → has a xs ≡ true → has a ys ≡ false

module _ (h : Links) (head other : Ptr) (zs : List Ptr) (elsewhere : IsRing h other zs) where
  -- `list_add_tail` changes no list that shares no node with the list and the new node.
  pub list_add_tail-frame :
      (xs : List Ptr) (n : Ptr)
      → IsRing h head xs
      → has n (other ∷ zs) ≡ false
      → Apart (head ∷ xs) (other ∷ zs)
      → IsRing (list_add_tail h n head) other zs
  unfolding list_add_tail list_insert set_next set_prev
  list_add_tail-frame xs n ring new apart =
      let out = apart head (ground arith) in
      let out' = apart (last head xs) (has-last head xs) in
      record {
        chain = rw (prev-last h head xs head ring.chain) (
            Chain-frame h (list_insert h n (last head xs) head) other zs other elsewhere.chain
              (λ a i.
                let an = ne_of_has n a (other ∷ zs) new i in
                let al = ne_of_has (last head xs) a (other ∷ zs) out' i in ground arith)
              (λ a i.
                let an = ne_of_has n a (other ∷ zs) new i in
                let ah = ne_of_has head a (other ∷ zs) out i in ground arith));
        distinct = elsewhere.distinct;
      }

  -- `list_delete_entry` changes no list that shares no node with the list of the entry.
  pub list_delete_entry-frame :
      (us : List Ptr) (n : Ptr) (vs : List Ptr)
      → IsRing h head (us ++ n ∷ vs)
      → Apart (head ∷ us ++ n ∷ vs) (other ∷ zs)
      → IsRing (list_delete_entry h n) other zs
  unfolding bypass set_next set_prev
  list_delete_entry-frame us n vs ring apart =
      let before =
        apart (last head us)
          (ground (arith, has-append (last head us) (head ∷ us) (n ∷ vs), has-last head us)) in
      let behind =
        apart (first vs head)
          (ground (arith, has-append (first vs head) us (n ∷ vs), has-first vs head)) in
      record {
        chain = rw (list_delete_entry-bypass h head us n vs ring) (
            Chain-frame h (bypass h (last head us) (first vs head)) other zs other elsewhere.chain
              (λ a i. let al = ne_of_has (last head us) a (other ∷ zs) before i in ground arith)
              (λ a i. let af = ne_of_has (first vs head) a (other ∷ zs) behind i in ground arith));
        distinct = elsewhere.distinct;
      }

module _ (head other : Ptr) (zs : List Ptr) where
  for_each_safe-frame :
      (fuel : ℕ) (test : Ptr → Bool) (h : Links) (xs ys : List Ptr)
      → IsRing h other zs
      → IsRing h head (xs ++ ys)
      → length ys < fuel
      → Apart (head ∷ xs ++ ys) (other ∷ zs)
      → IsRing (for_each_safe fuel test head h (first ys head) (h.next (first ys head))) other zs
  unfolding for_each_safe
  for_each_safe-frame zero test h xs ys elsewhere ring f apart = absurd (omega arith)
  for_each_safe-frame (suc fuel) test h xs [] elsewhere ring f apart = rw ==_refl elsewhere
  for_each_safe-frame (suc fuel) test h xs (y ∷ ys) elsewhere ring f apart =
      let (_, c) = Chain-split h head xs y ys head ring.chain in
      let out = not_has-right head xs (y ∷ ys) ring.distinct.0 in
      let e : (y == head) ≡ false = ground arith in
      elim (Bool-cases (test y)) [
        | inl t ↦
            rw (e, t, next-first h y ys head c)
              (for_each_safe-frame fuel test (list_delete_entry h y) xs ys
                (list_delete_entry-frame h head other zs elsewhere xs y ys ring apart)
                (list_delete_entry-drop h head xs y ys ring) (omega arith)
                (λ a i. apart a (ground (arith, i, has-append a xs ys, has-append a xs (y ∷ ys)))))
        | inr t ↦
            rw (e, t, next-first h y ys head c)
              (for_each_safe-frame fuel test h (xs ++ y ∷ []) ys elsewhere (rw append_assoc ring)
                (omega arith) (rw append_assoc apart))
      ]

  -- A sweep through one list changes no list that shares no node with it.
  pub delete_where-frame :
      (fuel : ℕ) (test : Ptr → Bool) (h : Links) (xs : List Ptr)
      → IsRing h other zs
      → IsRing h head xs
      → length xs < fuel
      → Apart (head ∷ xs) (other ∷ zs)
      → IsRing (delete_where fuel test h head) other zs
  unfolding delete_where
  delete_where-frame fuel test h xs elsewhere ring f apart =
      rw (next-first h head xs head ring.chain)
        (for_each_safe-frame fuel test h [] xs elsewhere ring f apart)
