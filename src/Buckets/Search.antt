-- ===== src/Buckets/Search.antt =====
-- A search through all lists is a search through the entries in order.
use mathlib.Core.List.{append_assoc}
use mathlib.Core.Path.{fun_ext, sym}
use net_working_mini_net.Base.{
  ℕ, zero, suc, ◌+◌, ◌≤◌, ◌<◌, ◌≡◌, refl, ap, ◌∙◌, inl, inr, Bool, true, false, none, some, List,
  [], ◌∷◌, ◌++◌, arith, ◌==◌, ==_iff, find, find-append, find-append_some, Option-cases, Bool-cases,
}
use net_working_mini_net.Buckets.{set_bucket, add_tail, first_in, entries}

module _ {ℓ} {A : Type ℓ} where
  pub first_in-find :
      (p : A → Bool) (left i : ℕ) (t : ℕ → List A) → first_in p left i t ≡ find p (entries left i t)
  unfolding first_in entries
  first_in-find p zero i t = refl
  first_in-find p (suc left) i t = elim (Option-cases (find p (t i))) [
    | inl e ↦
        rw (e, find-append p (t i) (entries left (suc i) t) e) (first_in-find p left (suc i) t)
    | inr (a, e) ↦ rw (e, find-append_some p (t i) (entries left (suc i) t) a e)
  ]

  -- An entry that fails the test is passed over.
  pub find-skip :
      (p : A → Bool) (xs : List A) (e : A) (ys : List A)
      → p e ≡ false
      → find p (xs ++ e ∷ ys) ≡ find p (xs ++ ys)
  find-skip p [] e ys h = rw h
  find-skip p (x ∷ xs) e ys h = rw (find-skip p xs e ys h)

  -- An entry that passes is found if no other passes.
  pub find-hit :
      (p : A → Bool) (xs : List A) (e : A) (ys : List A)
      → p e ≡ true
      → find p (xs ++ ys) ≡ none
      → find p (xs ++ e ∷ ys) ≡ some e
  find-hit p [] e ys h k = rw h
  find-hit p (x ∷ xs) e ys h k = ground (arith, find-hit p xs e ys h)

  pub entries-set_bucket_below :
      (left i k : ℕ) (t : ℕ → List A) (l : List A)
      → k < i
      → entries left i (set_bucket t k l) ≡ entries left i t
  unfolding set_bucket entries
  entries-set_bucket_below zero i k t l h = refl
  entries-set_bucket_below (suc left) i k t l h =
      let e : (i == k) ≡ false = ground arith in
      rw (e, entries-set_bucket_below left (suc i) k t l (omega arith))

  -- The entries before and behind the list `k`.
  pub entries-cut :
      (left i k : ℕ) (t : ℕ → List A)
      → i ≤ k
      → k < i + left
      → (xs : List A) × (ys : List A) × ((l : List A)
          → entries left i (set_bucket t k l) ≡ xs ++ (l ++ ys))
  unfolding set_bucket entries
  entries-cut zero i k t h g = absurd (omega arith)
  entries-cut (suc left) i k t h g = elim (Bool-cases (i == k)) [
    | inl e ↦ (
      [],
      entries left (suc i) t,
      λ l. rw e (ap (λ r. l ++ r) (entries-set_bucket_below left (suc i) k t l (ground arith))),
    )
    | inr e ↦
        let (xs, ys, cut) = entries-cut left (suc i) k t (ground arith) (omega arith) in
        (t i ++ xs, ys, λ l. rw (e, cut l, append_assoc))
  ]

  set_bucket_self : (t : ℕ → List A) (k : ℕ) → set_bucket t k (t k) ≡ t
  unfolding set_bucket
  set_bucket_self t k = fun_ext λ i. elim (Bool-cases (i == k)) [
    | inl e ↦ rw e (ap t (sym ((==_iff i k).0 e)))
    | inr e ↦ rw e
  ]

  -- Adding an entry at the end of one list puts it between two parts of all entries.
  pub entries-add_tail :
      (left k : ℕ) (t : ℕ → List A) (e : A)
      → k < left
      → (xs : List A) × (ys : List A) × (entries left 0 t ≡ xs ++ ys)
        × (entries left 0 (add_tail t k e) ≡ xs ++ e ∷ ys)
  unfolding add_tail
  entries-add_tail left k t e h =
      let (xs, ys, cut) = entries-cut left 0 k t (omega arith) (omega arith) in
      (
        xs ++ t k,
        ys,
        ap (entries left 0) (sym (set_bucket_self t k))
            ∙ cut (t k)
            ∙ sym (append_assoc xs (t k) ys),
        cut (t k ++ e ∷ []) ∙ simp append_assoc,
      )

  pub first_in-add_tail_ne :
      (p : A → Bool) (left k : ℕ) (t : ℕ → List A) (e : A)
      → k < left
      → p e ≡ false
      → first_in p left 0 (add_tail t k e) ≡ first_in p left 0 t
  first_in-add_tail_ne p left k t e h f =
      let (xs, ys, old, new) = entries-add_tail left k t e h in
      first_in-find p left 0 (add_tail t k e)
      ∙ ap (find p) new
      ∙ find-skip p xs e ys f
      ∙ ap (find p) (sym old)
      ∙ sym (first_in-find p left 0 t)

  pub first_in-add_tail_self :
      (p : A → Bool) (left k : ℕ) (t : ℕ → List A) (e : A)
      → k < left
      → p e ≡ true
      → first_in p left 0 t ≡ none
      → first_in p left 0 (add_tail t k e) ≡ some e
  first_in-add_tail_self p left k t e h f out =
      let (xs, ys, old, new) = entries-add_tail left k t e h in
      first_in-find p left 0 (add_tail t k e)
      ∙ ap (find p) new
      ∙ find-hit p xs e ys f (ap (find p) (sym old) ∙ sym (first_in-find p left 0 t) ∙ out)
