-- ===== src/Buckets/DropFirst.antt =====
-- A list less its first member that passes a test: what a loop leaves that deletes one entry and returns.
use mathlib.Core.Option
use net_working_mini_net.Base.{
  suc, ◌≤◌, ◌≡◌, refl, sym, ap, inl, inr, Bool, not, true, none, some, List, [], ◌∷◌, ◌++◌, arith,
  if◌then◌else◌, find, keep, length, Bool-cases, All,
}
use net_working_mini_net.Buckets.Removal.{Unique}

-- A list less the first member that passes a test.
unfoldable pub drop_first {ℓ} : {A : Type ℓ} → (A → Bool) → List A → List A
drop_first p [] = []
drop_first p (x ∷ xs) = if p x then xs else x ∷ drop_first p xs

module _ {ℓ} {A : Type ℓ} where
  pub drop_first-append_some :
      (p : A → Bool) (xs ys : List A) (a : A)
      → find p xs ≡ some a
      → drop_first p (xs ++ ys) ≡ drop_first p xs ++ ys
  unfolding drop_first
  drop_first-append_some p [] ys a h = absurd (Option.none-ne-some a h)
  drop_first-append_some p (x ∷ xs) ys a h = elim (Bool-cases (p x)) [
    | inl e ↦ rw e
    | inr e ↦ rw (e, drop_first-append_some p xs ys a (rw e at h))
  ]

  pub drop_first-append_none :
      (p : A → Bool) (xs ys : List A)
      → find p xs ≡ none
      → drop_first p (xs ++ ys) ≡ xs ++ drop_first p ys
  unfolding drop_first
  drop_first-append_none p [] ys h = refl
  drop_first-append_none p (x ∷ xs) ys h = elim (Bool-cases (p x)) [
    | inl e ↦ absurd (Option.none-ne-some x (sym (rw e at h)))
    | inr e ↦ rw (e, drop_first-append_none p xs ys (rw e at h))
  ]

  pub drop_first-none : (p : A → Bool) (xs : List A) → find p xs ≡ none → drop_first p xs ≡ xs
  unfolding drop_first
  drop_first-none p [] h = refl
  drop_first-none p (x ∷ xs) h = elim (Bool-cases (p x)) [
    | inl e ↦ absurd (Option.none-ne-some x (sym (rw e at h)))
    | inr e ↦ rw (e, drop_first-none p xs (rw e at h))
  ]

  pub length-drop_first :
      (p : A → Bool) (xs : List A) (a : A)
      → find p xs ≡ some a
      → suc (length (drop_first p xs)) ≡ length xs
  unfolding drop_first
  length-drop_first p [] a h = absurd (Option.none-ne-some a h)
  length-drop_first p (x ∷ xs) a h = ground (arith, length-drop_first p xs a)

  pub find-nil : (p : A → Bool) (xs : List A) → length xs ≤ 0 → find p xs ≡ none
  find-nil p [] h = refl
  find-nil p (x ∷ xs) h = absurd (omega arith)

  pub find-drop_first :
      (q p : A → Bool) (xs : List A) → find q xs ≡ none → find q (drop_first p xs) ≡ none
  unfolding drop_first
  find-drop_first q p [] h = refl
  find-drop_first q p (x ∷ xs) h = ground (arith, find-drop_first q p xs)

  pub keep-drop_first :
      (p : A → Bool) (xs : List A)
      → keep (λ a. not (p a)) (drop_first p xs) ≡ keep (λ a. not (p a)) xs
  unfolding drop_first
  keep-drop_first p [] = refl
  keep-drop_first p (x ∷ xs) = elim (Bool-cases (p x)) [
    | inl e ↦ rw e
    | inr e ↦ rw e (rw e (ap (λ l. x ∷ l) (keep-drop_first p xs)))
  ]

  pub Unique-drop_first :
      (same : A → A → Bool) (p : A → Bool) (xs : List A)
      → Unique same xs
      → Unique same (drop_first p xs)
  unfolding drop_first
  Unique-drop_first same p [] u = tt
  Unique-drop_first same p (x ∷ xs) u = elim (Bool-cases (p x)) [
    | inl e ↦ rw e u.1
    | inr e ↦ rw e (find-drop_first (same x) p xs u.0, Unique-drop_first same p xs u.1)
  ]

  pub none_of_none :
      (q p : A → Bool) (xs : List A)
      → All (λ a. q a ≡ true → p a ≡ true) xs
      → find p xs ≡ none
      → find q xs ≡ none
  none_of_none q p [] f h = refl
  none_of_none q p (x ∷ xs) f h = ground (arith, f.0, none_of_none q p xs f.1)

  pub All-drop_first :
      (P : A → Type 0) (p : A → Bool) (xs : List A) → All P xs → All P (drop_first p xs)
  unfolding drop_first
  All-drop_first P p [] h = tt
  All-drop_first P p (x ∷ xs) h = elim (Bool-cases (p x)) [
    | inl e ↦ rw e h.1
    | inr e ↦ rw e (h.0, All-drop_first P p xs h.1)
  ]
