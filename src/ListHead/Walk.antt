-- ===== src/ListHead/Walk.antt =====
-- The two iteration macros of list.h: what they visit, and a sweep that deletes as it goes.
use mathlib.Core.List.{append_assoc}
use net_working_mini_net.Base.{
  ℕ, zero, suc, ◌<◌, ◌≡◌, Bool, not, false, List, [], ◌∷◌, ◌++◌, arith, ◌==◌, length, keep, ==_refl,
  Bool-cases, inl, inr,
}
use net_working_mini_net.ListHead.{
  Ptr, Links, list_delete_entry, for_each, list_for_each_entry, for_each_safe, delete_where,
}
use net_working_mini_net.ListHead.Chain.{has, Chain, IsRing, first, Chain-split, next-first}
use net_working_mini_net.ListHead.Edit.{list_delete_entry-drop, not_has-right}

for_each-Chain :
    (fuel : ℕ) (h : Links) (head p : Ptr) (xs : List Ptr)
    → Chain h p xs head
    → has head xs ≡ false
    → length xs < fuel
    → for_each fuel h head (h.next p) ≡ xs
unfolding for_each
for_each-Chain zero h head p xs c d f = absurd (omega arith)
for_each-Chain (suc fuel) h head p [] c d f = rw (c.0, ==_refl)
for_each-Chain (suc fuel) h head p (x ∷ xs) c d f =
    let e : (x == head) ≡ false = ground arith in
    rw (c.0, e, for_each-Chain fuel h head x xs c.2 (ground arith) (omega arith))

-- With more fuel than entries, `list_for_each_entry` visits exactly the entries of a ring, in
-- order, and stops.
pub list_for_each_entry_lem :
    (fuel : ℕ) (h : Links) (head : Ptr) (xs : List Ptr)
    → IsRing h head xs
    → length xs < fuel
    → list_for_each_entry fuel h head ≡ xs
unfolding list_for_each_entry
list_for_each_entry_lem fuel h head xs ring f =
    for_each-Chain fuel h head head xs ring.chain ring.distinct.0 f

for_each_safe-IsRing :
    (fuel : ℕ) (test : Ptr → Bool) (h : Links) (head : Ptr) (xs ys : List Ptr)
    → IsRing h head (xs ++ ys)
    → length ys < fuel
    → IsRing
        (for_each_safe fuel test head h (first ys head) (h.next (first ys head)))
        head
        (xs ++ keep (λ a. not (test a)) ys)
unfolding for_each_safe
for_each_safe-IsRing zero test h head xs ys ring f = absurd (omega arith)
for_each_safe-IsRing (suc fuel) test h head xs [] ring f = rw ==_refl ring
for_each_safe-IsRing (suc fuel) test h head xs (y ∷ ys) ring f =
    let (_, c) = Chain-split h head xs y ys head ring.chain in
    let out = not_has-right head xs (y ∷ ys) ring.distinct.0 in
    let e : (y == head) ≡ false = ground arith in
    elim (Bool-cases (test y)) [
      | inl t ↦
          rw (e, t, next-first h y ys head c)
            (for_each_safe-IsRing fuel test (list_delete_entry h y) head xs ys
              (list_delete_entry-drop h head xs y ys ring) (omega arith))
      | inr t ↦
          rw (e, t, next-first h y ys head c)
            (rw append_assoc at (
              for_each_safe-IsRing fuel test h head (xs ++ y ∷ []) ys (rw append_assoc ring)
                (omega arith)))
    ]

-- With more fuel than entries, a sweep with `list_for_each_entry_safe` that deletes the entries
-- which a test picks visits every entry of a ring and leaves the others, in order.
pub delete_where-keep :
    (fuel : ℕ) (test : Ptr → Bool) (h : Links) (head : Ptr) (xs : List Ptr)
    → IsRing h head xs
    → length xs < fuel
    → IsRing (delete_where fuel test h head) head (keep (λ a. not (test a)) xs)
unfolding delete_where
delete_where-keep fuel test h head xs ring f =
    rw (next-first h head xs head ring.chain) (for_each_safe-IsRing fuel test h head [] xs ring f)
