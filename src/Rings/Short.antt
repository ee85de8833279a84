-- ===== src/Rings/Short.antt =====
-- How long the lists get, and the fuel that their loops need.
use mathlib.Core.Path.{subst}
use net_working_mini_net.Base.{
  ℕ, zero, suc, ◌≤◌, ◌<◌, ◌≡◌, ap, sym, ◌∙◌, inl, inr, Bool, not, false, List, [], ◌∷◌, ◌++◌, keep,
  length, length-map, length-append, arith, ◌==◌, Bool-cases,
}
use net_working_mini_net.Hash.{hash_8bits}
use net_working_mini_net.Buckets.{delete_in, add_tail, set_bucket}
use net_working_mini_net.ListHead.{Ptr, list_for_each_entry}
use net_working_mini_net.ListHead.Chain.{has}
use net_working_mini_net.ListHead.Walk.{list_for_each_entry_lem}
use net_working_mini_net.Rings.{Store}
use net_working_mini_net.Rings.Stores.{Stores, IsEnough, IsFresh}

-- No list has the node: what `malloc` promises.
abbrev pub IsUnused : {A : Type 0} → (heads : ℕ → Ptr) (fuel : ℕ) → Store A → (n : Ptr) → Type 0
IsUnused heads fuel s n =
    (i : ℕ) → i < hash_8bits → has n (heads i ∷ list_for_each_entry fuel s.links (heads i)) ≡ false

-- No list has more than `count` entries.
abbrev pub Short {ℓ} : {A : Type ℓ} → (count : ℕ) → (ℕ → List A) → Type 0
Short count t = (i : ℕ) → length (t i) ≤ count

module _ {ℓ} {A : Type ℓ} where
  pub set_bucket-Short :
      (count k : ℕ) (l : List A) (t : ℕ → List A)
      → Short count t
      → length l ≤ count
      → Short count (set_bucket t k l)
  unfolding set_bucket
  set_bucket-Short count k l t h b i = elim (Bool-cases (i == k)) [
    | inl same ↦ rw same b
    | inr other ↦ rw other (h i)
  ]

  pub add_tail-Short :
      (count k : ℕ) (e : A) (t : ℕ → List A) → Short count t → Short (suc count) (add_tail t k e)
  unfolding add_tail
  add_tail-Short count k e t h =
      set_bucket-Short (suc count) k (t k ++ e ∷ []) t (λ i. omega (arith, h i))
        (omega (arith, h k, length-append (t k) (e ∷ [])))

  length-keep : (p : A → Bool) (l : List A) → length (keep p l) ≤ length l
  length-keep p [] = omega arith
  length-keep p (x ∷ l) = ground (arith, length-keep p l)

  pub delete_in-Short :
      (p : A → Bool) (count left i : ℕ) (t : ℕ → List A)
      → Short count t
      → Short count (delete_in p left i t)
  unfolding delete_in
  delete_in-Short p count zero i t h = h
  delete_in-Short p count (suc left) i t h =
      delete_in-Short p count left (suc i) (set_bucket t i (keep (λ e. not (p e)) (t i))) (
        set_bucket-Short count i (keep (λ e. not (p e)) (t i)) t h
          (omega (arith, h i, length-keep (λ e. not (p e)) (t i))))

module _ {A : Type 0} (heads : ℕ → Ptr) (s : Store A) (t : ℕ → List A) (nodes : ℕ → List Ptr)
    (r : Stores heads s t nodes) (fuel : ℕ) where
  pub Stores-IsEnough : (count : ℕ) → count < fuel → Short count t → IsEnough fuel nodes
  Stores-IsEnough count b short i c =
      let as_long = sym (length-map s.entry (nodes i)) ∙ ap length (r.content i c) in
      omega (arith, short i)

  pub IsUnused-IsFresh :
      IsEnough fuel nodes → (n : Ptr) → IsUnused heads fuel s n → IsFresh heads nodes n
  IsUnused-IsFresh enough n unused i b =
      subst (λ l. has n (heads i ∷ l) ≡ false)
        (list_for_each_entry_lem fuel s.links (heads i) (nodes i) (r.ring i b) (enough i b))
        (unused i b)
