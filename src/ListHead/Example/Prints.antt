-- ===== src/ListHead/Example/Prints.antt =====
-- What `example` prints and leaves.
use mathlib.Core.List.{append_assoc, append-nil}
use mathlib.Core.Path.{subst}
use net_working_mini_net.Base.{
  ℕ, zero, suc, ◌+◌, ◌%◌, ◌<◌, ◌≤◌, ◌≡◌, ◌≢◌, refl, ap, ap₂, ◌∙◌, inl, inr, not, false, List, [],
  ◌∷◌, ◌++◌, ◌==◌, ==_refl, map, length, keep, All, arith, Bool-cases,
}
use net_working_mini_net.ListHead.{Ptr, init_list_head, list_delete_entry, list_for_each_entry}
use net_working_mini_net.ListHead.Chain.{has, IsRing, first, has-append, Chain-split, next-first}
use net_working_mini_net.ListHead.Edit.{
  init_list_head-IsRing, list_add_tail-append, list_delete_entry-drop, not_has-right,
}
use net_working_mini_net.ListHead.Walk.{list_for_each_entry_lem}
use net_working_mini_net.ListHead.Example.{Memory, add_node, is_even, odd_loop, fill, example}

-- The second loop from the entry behind `xs` on.
abbrev OddLoop : (number : Ptr → ℕ) (list : Ptr) (xs ys : List Ptr) (r : Memory × List ℕ) → Type 0
OddLoop number list xs ys r =
    IsRing r.0.links list (xs ++ keep (λ a. not (is_even number a)) ys)
    × (r.1 ≡ map number (keep (λ a. not (is_even number a)) ys))

odd_loop_lem :
    (fuel : ℕ) (list : Ptr) (m : Memory) (xs ys : List Ptr)
    → IsRing m.links list (xs ++ ys)
    → length ys < fuel
    → OddLoop m.number list xs ys
        (odd_loop fuel list m (first ys list) (m.links.next (first ys list)))
unfolding odd_loop
odd_loop_lem zero list m xs ys ring f = absurd (omega arith)
odd_loop_lem (suc fuel) list m xs [] ring f = rw ==_refl (ring, refl)
odd_loop_lem (suc fuel) list m xs (y ∷ ys) ring f =
    let (_, c) = Chain-split m.links list xs y ys list ring.chain in
    let out = not_has-right list xs (y ∷ ys) ring.distinct.0 in
    let e : (y == list) ≡ false = ground arith in
    elim (Bool-cases (is_even m.number y)) [
      | inl t ↦
          let deleted = record m { links = list_delete_entry m.links y } in
          let rest =
            odd_loop_lem fuel list deleted xs ys (list_delete_entry-drop m.links list xs y ys ring)
              (omega arith) in
          rw (e, t, next-first m.links y ys list c) rest
      | inr t ↦
          let rest =
            odd_loop_lem fuel list m (xs ++ y ∷ []) ys (rw append_assoc ring) (omega arith) in
          rw (e, t, next-first m.links y ys list c)
            (rw append_assoc at (rest.0), ap (λ l. m.number y ∷ l) (rest.1))
    ]

-- The numbers from `i` on, `left` of them.
abbrev pub from : (left i : ℕ) → List ℕ
from zero i = []
from (suc left) i = i ∷ from left (suc i)

module _ (malloc : ℕ → Ptr) (unlike : (i j : ℕ) → malloc i ≡ malloc j → i ≡ j) (list : Ptr)
    (new : (i : ℕ) → malloc i ≢ list) where
  fill-IsRing :
      (left i : ℕ) (m : Memory) (xs : List Ptr)
      → IsRing m.links list xs
      → ((k : ℕ) → i ≤ k → has (malloc k) xs ≡ false)
      → IsRing (fill malloc left i list m).links list (xs ++ map malloc (from left i))
  unfolding fill add_node
  fill-IsRing zero i m xs ring out = rw append-nil ring
  fill-IsRing (suc left) i m xs ring out =
      let ne = new i in
      let here = out i (omega arith) in
      rw append_assoc at (
        fill-IsRing left (suc i) (add_node list (malloc i) i m) (xs ++ malloc i ∷ [])
          (list_add_tail-append m.links list (malloc i) xs ring (ground arith))
          (λ k b.
            let ne' = unlike k i in
            ground (arith, has-append (malloc k) xs (malloc i ∷ []), out k)))

  fill-number :
      (left i : ℕ) (m : Memory) (k : ℕ)
      → ((j : ℕ) → j < i → m.number (malloc j) ≡ j)
      → k < i + left
      → (fill malloc left i list m).number (malloc k) ≡ k
  unfolding fill add_node
  fill-number zero i m k h b = h k (omega arith)
  fill-number (suc left) i m k h b =
      fill-number left (suc i) (add_node list (malloc i) i m) k
        (λ j c.
          let ne = unlike j i in
          elim (Bool-cases (malloc j == malloc i)) [
            | inl e ↦ rw e (ground arith)
            | inr e ↦
                let le : j < i =
                  let differ : j ≢ i =
                    λ same. (let s : malloc j ≡ malloc i = ap malloc same in ground arith) in
                  omega (arith, differ) in
                rw e (h j le)
          ])
        (omega arith)

module _ (malloc : ℕ → Ptr) (number : Ptr → ℕ) where
  numbers_of :
      (left i : ℕ)
      → ((k : ℕ) → k < i + left → number (malloc k) ≡ k)
      → map number (map malloc (from left i)) ≡ from left i
  numbers_of zero i h = refl
  numbers_of (suc left) i h =
      ap₂ (λ (k : ℕ) (l : List ℕ). k ∷ l) (h i (omega arith))
        (numbers_of left (suc i) (λ k b. h k (omega arith)))

  odd_of :
      (left i : ℕ)
      → ((k : ℕ) → k < i + left → number (malloc k) ≡ k)
      → keep (λ a. not (is_even number a)) (map malloc (from left i))
        ≡ map malloc (keep (λ k. not (k % 2 == 0)) (from left i))
  unfolding is_even
  odd_of zero i h = refl
  odd_of (suc left) i h =
      let later = odd_of left (suc i) (λ k b. h k (omega arith)) in
      elim (Bool-cases (i % 2 == 0)) [
        | inl e ↦ rw (h i (omega arith), e) later
        | inr e ↦ rw (h i (omega arith), e) (ap (λ l. malloc i ∷ l) later)
      ]

  numbers_below :
      (count : ℕ) (l : List ℕ)
      → ((k : ℕ) → k < count → number (malloc k) ≡ k)
      → All (λ k. k < count) l
      → map number (map malloc l) ≡ l
  numbers_below count [] h b = refl
  numbers_below count (k ∷ l) h b =
      ap₂ (λ (k : ℕ) (l : List ℕ). k ∷ l) (h k b.0) (numbers_below count l h b.1)

-- Both loops over a list of the numbers below `count`.
loops :
    (malloc : ℕ → Ptr) (fuel count : ℕ) (list : Ptr) (m : Memory)
    → IsRing m.links list (map malloc (from count 0))
    → ((k : ℕ) → k < count → m.number (malloc k) ≡ k)
    → length (map malloc (from count 0)) < fuel
    → (map m.number (list_for_each_entry fuel m.links list) ≡ from count 0)
      × OddLoop m.number list []
          (map malloc (from count 0))
          (odd_loop fuel list m (m.links.next list) (m.links.next (m.links.next list)))
loops malloc fuel count list m ring number f =
    let nodes = map malloc (from count 0) in
    (
      ap (map m.number) (list_for_each_entry_lem fuel m.links list nodes ring f)
          ∙ numbers_of malloc m.number count 0 (λ k b. number k (omega arith)),
      rw (next-first m.links list nodes list ring.chain) (odd_loop_lem fuel list m [] nodes ring f),
    )

-- If the addresses that `malloc` gives differ from each other and from the head's, then, whatever the memory held, the
-- first loop of `example` prints the numbers from 0 to 9 in order, the second prints the odd ones, and
-- the list is left with exactly their nodes, in order. More than ten rounds of fuel are enough.
pub example-prints :
    (malloc : ℕ → Ptr) (fuel : ℕ) (list : Ptr) (m : Memory)
    → ((i j : ℕ) → malloc i ≡ malloc j → i ≡ j)
    → ((i : ℕ) → malloc i ≢ list)
    → 10 < fuel
    → ((example malloc fuel list m).0 ≡ from 10 0)
      × ((example malloc fuel list m).1 ≡ 1 ∷ 3 ∷ 5 ∷ 7 ∷ 9 ∷ [])
      × IsRing (example malloc fuel list m).2.links list (map malloc (1 ∷ 3 ∷ 5 ∷ 7 ∷ 9 ∷ []))
unfolding example
example-prints malloc fuel list m unlike new f =
    let cleared = record m { links = init_list_head m.links list } in
    let filled = fill malloc 10 0 list cleared in
    let ring : IsRing filled.links list (map malloc (from 10 0)) =
      fill-IsRing malloc unlike list new 10 0 cleared [] (init_list_head-IsRing m.links list)
        (λ k b. refl) in
    let number = λ (k : ℕ) (b : k < 10).
      fill-number malloc unlike list new 10 0 cleared k (λ j c. absurd (omega arith))
        (omega arith) in
    let (all, (left, printed)) = loops malloc fuel 10 list filled ring number f in
    let odd = odd_of malloc filled.number 10 0 number in
    (
      all,
      printed
          ∙ ap (map filled.number) odd
          ∙ numbers_below malloc filled.number 10 (1 ∷ 3 ∷ 5 ∷ 7 ∷ 9 ∷ []) number
              (omega arith, (omega arith, (omega arith, (omega arith, (omega arith, tt))))),
      subst (λ l. IsRing (example malloc fuel list m).2.links list l) odd left,
    )
