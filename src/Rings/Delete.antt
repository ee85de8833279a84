-- ===== src/Rings/Delete.antt =====
-- One entry taken out of its list, and sweeps through all lists.
use mathlib.Core.Option
use mathlib.Core.Path.{subst}
use net_working_mini_net.Base.{
  ℕ, zero, suc, ◌+◌, ◌≤◌, ◌<◌, ◌≡◌, refl, ap, ◌∙◌, sym, inl, inr, not, true, false, Bool, some,
  List, [], ◌∷◌, ◌++◌, map, keep, length, find, ◌==◌, arith, Bool-cases,
}
use net_working_mini_net.Hash.{hash_8bits}
use net_working_mini_net.Buckets.{set_bucket, delete_in}
use net_working_mini_net.Buckets.DropFirst.{drop_first}
use net_working_mini_net.ListHead.{Ptr, list_delete_entry, delete_where}
use net_working_mini_net.ListHead.Chain.{has, IsRing, has-append}
use net_working_mini_net.ListHead.Edit.{list_delete_entry-drop}
use net_working_mini_net.ListHead.Walk.{delete_where-keep}
use net_working_mini_net.ListHead.Frame.{Apart, list_delete_entry-frame, delete_where-frame}
use net_working_mini_net.Rings.{Store, delete_lists}
use net_working_mini_net.Rings.Stores.{Stores, IsEnough, replace-Stores}

module _ {A : Type 0} where
  -- A list of nodes cut at the first whose entry passes a test.
  pub find-cut :
      (entry : Ptr → A) (p : A → Bool) (xs : List Ptr) (n : Ptr)
      → find (λ a. p (entry a)) xs ≡ some n
      → (us : List Ptr) × (vs : List Ptr) × (xs ≡ us ++ n ∷ vs)
        × (drop_first p (map entry xs) ≡ map entry (us ++ vs))
  unfolding drop_first
  find-cut entry p [] n e = absurd (Option.none-ne-some n e)
  find-cut entry p (x ∷ xs) n e = elim (Bool-cases (p (entry x))) [
    | inl t ↦ let same : x ≡ n = cc in ([], xs, ap (λ a. a ∷ xs) same, rw t refl)
    | inr t ↦
        let (us, vs, cut, rest) = find-cut entry p xs n (rw t at e) in
        (x ∷ us, vs, ap (λ l. x ∷ l) cut, rw t (ap (λ l. entry x ∷ l) rest))
  ]

  keep-map :
      (entry : Ptr → A) (p : A → Bool) (xs : List Ptr)
      → map entry (keep (λ a. not (p (entry a))) xs) ≡ keep (λ e. not (p e)) (map entry xs)
  keep-map entry p [] = refl
  keep-map entry p (x ∷ xs) = elim (Bool-cases (p (entry x))) [
    | inl e ↦ rw e (keep-map entry p xs)
    | inr e ↦ rw e (ap (λ l. entry x ∷ l) (keep-map entry p xs))
  ]

pub has-keep :
    (p : Ptr → Bool) (a : Ptr) (xs : List Ptr) → has a (keep p xs) ≡ true → has a xs ≡ true
has-keep p a [] h = h
has-keep p a (x ∷ xs) h = ground (arith, has-keep p a xs)

length-keep : (p : Ptr → Bool) (xs : List Ptr) → length (keep p xs) ≤ length xs
length-keep p [] = omega arith
length-keep p (x ∷ xs) = ground (arith, length-keep p xs)

has-less :
    (a : Ptr) (us : List Ptr) (n : Ptr) (vs : List Ptr)
    → has a (us ++ vs) ≡ true
    → has a (us ++ n ∷ vs) ≡ true
has-less a us n vs h = ground (arith, has-append a us vs, has-append a us (n ∷ vs))

-- What is out of a list is out of every list whose members it has.
out_of :
    (head a : Ptr) (xs ys : List Ptr)
    → (has a ys ≡ true → has a xs ≡ true)
    → has a (head ∷ xs) ≡ false
    → has a (head ∷ ys) ≡ false
out_of head a xs ys sub h = ground (arith, sub)

module _ {A : Type 0} (heads : ℕ → Ptr) (s : Store A) (t : ℕ → List A) (nodes : ℕ → List Ptr)
    (r : Stores heads s t nodes) where
  pub delete_entry-Stores :
      (k : ℕ) (us : List Ptr) (n : Ptr) (vs : List Ptr)
      → k < hash_8bits
      → nodes k ≡ us ++ n ∷ vs
      → Stores heads
          (record s { links = list_delete_entry s.links n })
          (set_bucket t k (map s.entry (us ++ vs)))
          (set_bucket nodes k (us ++ vs))
  delete_entry-Stores k us n vs b cut =
      let ring : IsRing s.links (heads k) (us ++ n ∷ vs) =
        subst (λ l. IsRing s.links (heads k) l) cut (r.ring k b) in
      replace-Stores heads s t nodes r k b (list_delete_entry s.links n) (us ++ vs) (
        list_delete_entry-drop s.links (heads k) us n vs ring,
        λ i c ne.
            list_delete_entry-frame s.links (heads k) (heads i) (nodes i) (r.ring i c) us n vs ring
              (subst (λ l. Apart (heads k ∷ l) (heads i ∷ nodes i)) cut
                (r.apart k i b c (λ same. ne (sym same)))),
        λ i c ne a m.
            out_of (heads k) a (nodes k) (us ++ vs)
              (λ h. subst (λ l. has a l ≡ true) (sym cut) (has-less a us n vs h))
              (r.apart i k c b ne a m),
      )

  module _ (fuel : ℕ) (f : IsEnough fuel nodes) (p : A → Bool) (k : ℕ) (b : k < hash_8bits) where
    pub sweep_list-Stores :
        Stores heads
          (record s { links = delete_where fuel (λ a. p (s.entry a)) s.links (heads k) })
          (set_bucket t k (keep (λ e. not (p e)) (t k)))
          (set_bucket nodes k (keep (λ a. not (p (s.entry a))) (nodes k)))
    sweep_list-Stores =
        let test = λ (a : Ptr). p (s.entry a) in
        let left = keep (λ a. not (p (s.entry a))) (nodes k) in
        subst
          (λ l.
            Stores heads (record s { links = delete_where fuel test s.links (heads k) })
              (set_bucket t k l) (set_bucket nodes k left))
          (keep-map s.entry p (nodes k) ∙ ap (keep (λ e. not (p e))) (r.content k b))
          (replace-Stores heads s t nodes r k b (delete_where fuel test s.links (heads k)) left (
            delete_where-keep fuel test s.links (heads k) (nodes k) (r.ring k b) (f k b),
            λ i c ne.
                delete_where-frame (heads k) (heads i) (nodes i) fuel test s.links (nodes k)
                  (r.ring i c) (r.ring k b) (f k b) (r.apart k i b c (λ same. ne (sym same))),
            λ i c ne a m.
                out_of (heads k) a (nodes k) left (has-keep (λ a. not (p (s.entry a))) a (nodes k))
                  (r.apart i k c b ne a m),
          ))

    pub sweep_list-IsEnough :
        IsEnough fuel (set_bucket nodes k (keep (λ a. not (p (s.entry a))) (nodes k)))
    unfolding set_bucket
    sweep_list-IsEnough i c = elim (Bool-cases (i == k)) [
      | inl e ↦ rw e (omega (arith, f k b, length-keep (λ a. not (p (s.entry a))) (nodes k)))
      | inr e ↦ rw e (f i c)
    ]

-- A sweep through all lists from `i` on does on the memory what `delete_in` does on the lists.
pub delete_lists-Stores :
    {A : Type 0} (heads : ℕ → Ptr) (fuel : ℕ) (p : A → Bool) (left i : ℕ) (s : Store A)
    (t : ℕ → List A) (nodes : ℕ → List Ptr)
    → Stores heads s t nodes
    → IsEnough fuel nodes
    → i + left ≤ hash_8bits
    → Stores heads
        (record s { links = delete_lists heads fuel (λ a. p (s.entry a)) left i s.links })
        (delete_in p left i t)
        (delete_in (λ a. p (s.entry a)) left i nodes)
unfolding delete_lists delete_in
delete_lists-Stores heads fuel p zero i s t nodes r f b = r
delete_lists-Stores heads fuel p (suc left) i s t nodes r f b =
    delete_lists-Stores heads fuel p left (suc i)
      (record s { links = delete_where fuel (λ a. p (s.entry a)) s.links (heads i) })
      (set_bucket t i (keep (λ e. not (p e)) (t i)))
      (set_bucket nodes i (keep (λ a. not (p (s.entry a))) (nodes i)))
      (sweep_list-Stores heads s t nodes r fuel f p i (omega arith))
      (sweep_list-IsEnough heads s t nodes r fuel f p i (omega arith)) (omega arith)
