-- ===== src/ListHead/Chain.antt =====
-- What a circular list stands for: the addresses of its entries in order.
use net_working_mini_net.Base.{
  ◌≡◌, refl, ◌∙◌, Bool, true, false, ◌||◌, List, [], ◌∷◌, ◌++◌, arith, ◌==◌,
}
use net_working_mini_net.ListHead.{Ptr, Links}

abbrev pub has : Ptr → List Ptr → Bool
has a [] = false
has a (x ∷ xs) = (a == x) || has a xs

-- No address occurs twice.
abbrev pub Distinct : List Ptr → Type 0
Distinct [] = Unit
Distinct (x ∷ xs) = (has x xs ≡ false) × Distinct xs

-- From `p` the `next` fields lead through `xs` to `q`, and the `prev` fields lead back.
abbrev pub Chain : Links → Ptr → List Ptr → Ptr → Type 0
Chain h p [] q = (h.next p ≡ q) × (h.prev q ≡ p)
Chain h p (x ∷ xs) q = (h.next p ≡ x) × (h.prev x ≡ p) × Chain h x xs q

-- The list with head node `head` holds the distinct entries `xs`.
pub record IsRing (h : Links) (head : Ptr) (xs : List Ptr) : Type 0 where
  pub chain : Chain h head xs head
  pub distinct : Distinct (head ∷ xs)

-- The last address of a chain that starts at `p`.
abbrev pub last : Ptr → List Ptr → Ptr
last p [] = p
last p (x ∷ xs) = last x xs

-- The first address behind `xs`.
abbrev pub first : List Ptr → Ptr → Ptr
first [] q = q
first (x ∷ xs) q = x

pub has-append : (a : Ptr) (xs ys : List Ptr) → has a (xs ++ ys) ≡ (has a xs || has a ys)
has-append a [] ys = refl
has-append a (x ∷ xs) ys = ground (arith, has-append a xs ys)

pub has-last : (p : Ptr) (xs : List Ptr) → has (last p xs) (p ∷ xs) ≡ true
has-last p [] = ground arith
has-last p (x ∷ xs) = ground (arith, has-last x xs)

-- An address outside a list differs from every member.
pub ne_of_has : (a b : Ptr) (xs : List Ptr) → has a xs ≡ false → has b xs ≡ true → (a == b) ≡ false
ne_of_has a b [] h k = cc
ne_of_has a b (x ∷ xs) h k = ground (arith, ne_of_has a b xs)

module _ (h : Links) where
  -- A chain of two parts joins at the last address of the first part.
  pub Chain-append :
      (p : Ptr) (xs : List Ptr) (y : Ptr) (ys : List Ptr) (q : Ptr)
      → Chain h p xs y
      → Chain h y ys q
      → Chain h p (xs ++ y ∷ ys) q
  Chain-append p [] y ys q c d = (c.0, c.1, d)
  Chain-append p (x ∷ xs) y ys q c d = (c.0, c.1, Chain-append x xs y ys q c.2 d)

  pub Chain-split :
      (p : Ptr) (xs : List Ptr) (y : Ptr) (ys : List Ptr) (q : Ptr)
      → Chain h p (xs ++ y ∷ ys) q
      → Chain h p xs y × Chain h y ys q
  Chain-split p [] y ys q c = ((c.0, c.1), c.2)
  Chain-split p (x ∷ xs) y ys q c = let r = Chain-split x xs y ys q c.2 in ((c.0, c.1, r.0), r.1)

  pub prev-last : (p : Ptr) (xs : List Ptr) (q : Ptr) → Chain h p xs q → h.prev q ≡ last p xs
  prev-last p [] q c = c.1
  prev-last p (x ∷ xs) q c = prev-last x xs q c.2

  pub next-first : (p : Ptr) (xs : List Ptr) (q : Ptr) → Chain h p xs q → h.next p ≡ first xs q
  next-first p [] q c = c.0
  next-first p (x ∷ xs) q c = c.0

module _ (h g : Links) where
  -- A chain survives every change that spares the fields it reads.
  pub Chain-frame :
      (p : Ptr) (xs : List Ptr) (q : Ptr)
      → Chain h p xs q
      → ((a : Ptr) → has a (p ∷ xs) ≡ true → g.next a ≡ h.next a)
      → ((a : Ptr) → has a (q ∷ xs) ≡ true → g.prev a ≡ h.prev a)
      → Chain g p xs q
  Chain-frame p [] q c n r = ground (arith, n p, r q)
  Chain-frame p (x ∷ xs) q c n r = (
    ground (arith, n p),
    ground (arith, r x),
    Chain-frame x xs q c.2 (λ a i. n a (ground arith)) (λ a i. r a (ground arith)),
  )

  -- The last link of a chain is led to another address.
  pub Chain-redirect :
      (p : Ptr) (xs : List Ptr) (q q' : Ptr)
      → Chain h p xs q
      → Distinct (p ∷ xs)
      → g.next (last p xs) ≡ q'
      → g.prev q' ≡ last p xs
      → ((a : Ptr) → has a (p ∷ xs) ≡ true → (a == last p xs) ≡ false → g.next a ≡ h.next a)
      → ((a : Ptr) → has a xs ≡ true → g.prev a ≡ h.prev a)
      → Chain g p xs q'
  Chain-redirect p [] q q' c d e f n r = (e, f)
  Chain-redirect p (x ∷ xs) q q' c d e f n r = (
    n p (ground arith) (ne_of_has p (last x xs) (x ∷ xs) d.0 (has-last x xs)) ∙ c.0,
    ground (arith, r x),
    Chain-redirect x xs q q' c.2 d.1 e f (λ a i ne. n a (ground arith) ne)
        (λ a i. r a (ground arith)),
  )
