-- ===== src/Buckets.antt =====
-- A hash table as the code lays it out, an array of lists indexed from 0, and the loops that run over
-- all of it: `for (i = 0; i < HASH_8BITS; i++) list_for_each_entry_safe(...)`.
pub mod DropFirst
pub mod Search
pub mod Removal
use net_working_mini_net.Base.{
  ℕ, zero, suc, ◌+◌, Bool, not, Option, none, some, List, [], ◌∷◌, ◌++◌, ◌==◌, if◌then◌else◌, find,
  keep, or_else,
}

module _ {ℓ} {A : Type ℓ} where
  unfoldable pub set_bucket : (ℕ → List A) → ℕ → List A → ℕ → List A
  set_bucket t k l i = if i == k then l else t i

  -- `list_add_tail(&entry->list, &table[k])`
  unfoldable pub add_tail : (ℕ → List A) → ℕ → A → ℕ → List A
  unfolding set_bucket
  add_tail t k e = set_bucket t k (t k ++ e ∷ [])

  -- The nested loops whose body returns the first entry that passes a test; `left` lists remain, the
  -- next of them at `i`.
  unfoldable pub first_in : (A → Bool) → (left i : ℕ) → (ℕ → List A) → Option A
  first_in p zero i t = none
  first_in p (suc left) i t = or_else (find p (t i)) (first_in p left (suc i) t)

  -- The nested loops whose body deletes the entries that a test picks.
  unfoldable pub delete_in : (A → Bool) → (left i : ℕ) → (ℕ → List A) → ℕ → List A
  unfolding set_bucket
  delete_in p zero i t = t
  delete_in p (suc left) i t =
      delete_in p left (suc i) (set_bucket t i (keep (λ e. not (p e)) (t i)))

  -- All entries of the lists from `i` on, in the order of the loops.
  unfoldable pub entries : (left i : ℕ) → (ℕ → List A) → List A
  entries zero i t = []
  entries (suc left) i t = t i ++ entries left (suc i) t
