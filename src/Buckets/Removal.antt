-- ===== src/Buckets/Removal.antt =====
-- Deletion from all lists, and tables in which no two entries have one key.
use net_working_mini_net.Base.{
  ℕ, zero, suc, ◌<◌, ◌≡◌, refl, ◌∙◌, inl, inr, Bool, not, true, false, none, List, [], ◌∷◌, ◌++◌,
  arith, ◌==◌, ==_refl, find, keep, Bool-cases,
}
use net_working_mini_net.Buckets.{set_bucket, delete_in, entries}
use net_working_mini_net.Buckets.Search.{entries-set_bucket_below, find-skip}

module _ {ℓ} {A : Type ℓ} where
  pub keep-append : (p : A → Bool) (xs ys : List A) → keep p (xs ++ ys) ≡ keep p xs ++ keep p ys
  keep-append p [] ys = refl
  keep-append p (x ∷ xs) ys = elim (Bool-cases (p x)) [
    | inl e ↦ rw (e, keep-append p xs ys)
    | inr e ↦ rw (e, keep-append p xs ys)
  ]

  delete_in_below :
      (p : A → Bool) (left i k : ℕ) (t : ℕ → List A) → k < i → delete_in p left i t k ≡ t k
  unfolding delete_in
  delete_in_below p zero i k t h = refl
  delete_in_below p (suc left) i k t h =
      let e : (k == i) ≡ false = ground arith in
      delete_in_below p left (suc i) k (set_bucket t i (keep (λ e. not (p e)) (t i))) (omega arith)
      ∙ rw e refl

  -- The loops delete exactly the entries that the test picks.
  pub entries-delete_in :
      (p : A → Bool) (left i : ℕ) (t : ℕ → List A)
      → entries left i (delete_in p left i t) ≡ keep (λ e. not (p e)) (entries left i t)
  unfolding delete_in entries
  entries-delete_in p zero i t = refl
  entries-delete_in p (suc left) i t =
      let l = keep (λ e. not (p e)) (t i) in
      let t' = set_bucket t i l in
      let e : (i == i) ≡ true = ==_refl i in
      let here : delete_in p left (suc i) t' i ≡ l =
        delete_in_below p left (suc i) i t' (omega arith) ∙ rw e refl in
      rw (
        here,
        entries-delete_in p left (suc i) t',
        entries-set_bucket_below left (suc i) i t l (omega arith),
        keep-append,
      )

  -- No two entries are the same by the test.
  abbrev pub Unique : (A → A → Bool) → List A → Type ℓ
  Unique same [] = Unit
  Unique same (x ∷ xs) = (find (same x) xs ≡ none) × Unique same xs

  pub find-keep : (q p : A → Bool) (xs : List A) → find q xs ≡ none → find q (keep p xs) ≡ none
  find-keep q p [] h = refl
  find-keep q p (x ∷ xs) h = elim (Bool-cases (p x)) [
    | inl e ↦ rw e (ground (arith, find-keep q p xs))
    | inr e ↦ rw e (find-keep q p xs (ground arith))
  ]

  pub Unique-keep :
      (same : A → A → Bool) (p : A → Bool) (xs : List A) → Unique same xs → Unique same (keep p xs)
  Unique-keep same p [] u = tt
  Unique-keep same p (x ∷ xs) u = elim (Bool-cases (p x)) [
    | inl e ↦ rw e (find-keep (same x) p xs u.0, Unique-keep same p xs u.1)
    | inr e ↦ rw e (Unique-keep same p xs u.1)
  ]

  pub Unique-insert :
      (same : A → A → Bool)
      → ((a b : A) → same a b ≡ same b a)
      → (xs : List A) (e : A) (ys : List A) → Unique same (xs ++ ys)
      → find (same e) (xs ++ ys) ≡ none
      → Unique same (xs ++ e ∷ ys)
  Unique-insert same comm [] e ys u h = (h, u)
  Unique-insert same comm (x ∷ xs) e ys u h = (
    find-skip (same x) xs e ys (ground (arith, comm x e)) ∙ u.0,
    Unique-insert same comm xs e ys u.1 (ground arith),
  )
