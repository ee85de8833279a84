-- ===== src/Rings/Stores.antt =====
-- What a store stands for, what the loops find in it, and how one list of it may change.
use mathlib.Core.Option
use mathlib.Core.Path.{subst}
use net_working_mini_net.Base.{
  ℕ, zero, suc, ◌+◌, ◌≤◌, ◌<◌, ◌≡◌, ◌≢◌, refl, ap, ◌∙◌, sym, inl, inr, Bool, true, false, List, [],
  ◌∷◌, ◌==◌, ==_refl, arith, length, map, find, Bool-cases, Option-cases,
}
use net_working_mini_net.Buckets.{first_in, set_bucket}
use net_working_mini_net.Hash.{hash_8bits}
use net_working_mini_net.ListHead.{Ptr, Links}
use net_working_mini_net.ListHead.Chain.{has, Chain, IsRing}
use net_working_mini_net.ListHead.Frame.{Apart}
use net_working_mini_net.Rings.{Store, walk, search_list, first_node}

-- More rounds than any list has entries.
abbrev pub IsEnough : (fuel : ℕ) (nodes : ℕ → List Ptr) → Type 0
IsEnough fuel nodes = (i : ℕ) → i < hash_8bits → length (nodes i) < fuel

-- The node is in none of the lists.
abbrev pub IsFresh : (heads : ℕ → Ptr) (nodes : ℕ → List Ptr) (n : Ptr) → Type 0
IsFresh heads nodes n = (i : ℕ) → i < hash_8bits → has n (heads i ∷ nodes i) ≡ false

module _ {A : Type 0} where
  -- The 256 lists are rings that share no node, the nodes of the list `i` are `nodes i`, and their
  -- entries are those of the list `t i`.
  pub record Stores (heads : ℕ → Ptr) (s : Store A) (t : ℕ → List A) (nodes : ℕ → List Ptr)
      : Type 0 where
    pub ring : (i : ℕ) → i < hash_8bits → IsRing s.links (heads i) (nodes i)
    pub content : (i : ℕ) → i < hash_8bits → map s.entry (nodes i) ≡ t i
    pub apart :
        (i j : ℕ)
        → i < hash_8bits
        → j < hash_8bits
        → i ≢ j
        → Apart (heads i ∷ nodes i) (heads j ∷ nodes j)

  walk-find :
      (fuel : ℕ) (s : Store A) (test : Ptr → Bool) (head p : Ptr) (xs : List Ptr)
      → Chain s.links p xs head
      → has head xs ≡ false
      → length xs < fuel
      → walk fuel s test head (s.links.next p) ≡ find test xs
  unfolding walk
  walk-find zero s test head p xs c d f = absurd (omega arith)
  walk-find (suc fuel) s test head p [] c d f = rw (c.0, ==_refl)
  walk-find (suc fuel) s test head p (x ∷ xs) c d f =
      let e : (x == head) ≡ false = ground arith in
      rw (c.0, e, walk-find fuel s test head x xs c.2 (ground arith) (omega arith))

  find-map :
      (entry : Ptr → A) (p : A → Bool) (xs : List Ptr)
      → Option.map entry (find (λ n. p (entry n)) xs) ≡ find p (map entry xs)
  find-map entry p [] = refl
  find-map entry p (x ∷ xs) = elim (Bool-cases (p (entry x))) [
    | inl e ↦ rw e refl
    | inr e ↦ rw e (find-map entry p xs)
  ]

  module _ (heads : ℕ → Ptr) (s : Store A) (t : ℕ → List A) (nodes : ℕ → List Ptr)
      (r : Stores heads s t nodes) where
    -- What is found in the nodes of a list has for entry what is found in the list.
    pub find-content :
        (p : A → Bool) (i : ℕ)
        → i < hash_8bits
        → Option.map s.entry (find (λ n. p (s.entry n)) (nodes i)) ≡ find p (t i)
    find-content p i b = find-map s.entry p (nodes i) ∙ ap (find p) (r.content i b)

    pub first_in-content :
        (p : A → Bool) (left i : ℕ)
        → i + left ≤ hash_8bits
        → Option.map s.entry (first_in (λ n. p (s.entry n)) left i nodes) ≡ first_in p left i t
    unfolding first_in
    first_in-content p zero i b = refl
    first_in-content p (suc left) i b =
        let here = find-content p i (omega arith) in
        let later = first_in-content p left (suc i) (omega arith) in
        elim (Option-cases (find (λ n. p (s.entry n)) (nodes i))) [
          | inl e ↦ rw (e, sym (rw e at here)) later
          | inr (n, e) ↦ rw (e, sym (rw e at here)) refl
        ]

    module _ (fuel : ℕ) (f : IsEnough fuel nodes) (test : Ptr → Bool) where
      pub search_list_lem :
          (i : ℕ) → i < hash_8bits → search_list fuel s test (heads i) ≡ find test (nodes i)
      unfolding search_list
      search_list_lem i b =
          let ring = r.ring i b in
          walk-find fuel s test (heads i) (heads i) (nodes i) ring.chain ring.distinct.0 (f i b)

      -- The nested loops find what a search of the lists of nodes finds.
      pub first_node_lem :
          (left i : ℕ)
          → i + left ≤ hash_8bits
          → first_node heads fuel test left i s ≡ first_in test left i nodes
      unfolding first_node first_in
      first_node_lem zero i b = refl
      first_node_lem (suc left) i b =
          rw (search_list_lem i (omega arith), first_node_lem left (suc i) (omega arith)) refl

    -- The list `k` gets the nodes `ys`, and the others stay.
    module _ (k : ℕ) (b : k < hash_8bits) (h : Links) (ys : List Ptr) where
      abbrev pub Replaces : Type 0
      Replaces =
          IsRing h (heads k) ys
          × ((i : ℕ) → i < hash_8bits → i ≢ k → IsRing h (heads i) (nodes i))
          × ((i : ℕ)
              → i < hash_8bits
              → i ≢ k
              → (a : Ptr) → has a (heads i ∷ nodes i) ≡ true
              → has a (heads k ∷ ys) ≡ false)

      pub replace-Stores :
          Replaces
          → Stores heads
              (record s { links = h })
              (set_bucket t k (map s.entry ys))
              (set_bucket nodes k ys)
      unfolding set_bucket
      replace-Stores (ring, others, apart) = record {
        ring = λ i c. elim (Bool-cases (i == k)) [
          | inl e ↦
              let kth : k ≡ i = ground arith in rw e (subst (λ j. IsRing h (heads j) ys) kth ring)
          | inr e ↦ rw e (others i c (ground arith))
        ];
        content =
            λ i c. elim (Bool-cases (i == k)) [ inl e ↦ rw e refl | inr e ↦ rw e (r.content i c) ];
        apart = λ i j c c' ne a m. elim (Bool-cases (i == k)) [
          | inl e ↦
              let kth : i ≡ k = ground arith in
              let other : (j == k) ≡ false = ground arith in
              let m' : has a (heads k ∷ ys) ≡ true =
                subst (λ l. has a (heads l ∷ ys) ≡ true) kth (rw e at m) in
              let jk : j ≢ k = ground arith in
              rw other (elim (Bool-cases (has a (heads j ∷ nodes j))) [
                | inl x ↦ let y = apart j c' jk a x in cc
                | inr x ↦ x
              ])
          | inr e ↦ elim (Bool-cases (j == k)) [
            | inl e' ↦
                let kth : k ≡ j = ground arith in
                rw e' (
                  subst (λ l. has a (heads l ∷ ys) ≡ false) kth
                    (apart i c (ground arith) a (rw e at m)))
            | inr e' ↦ rw e' (r.apart i j c c' ne a (rw e at m))
          ]
        ];
      }
