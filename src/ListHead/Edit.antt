-- ===== src/ListHead/Edit.antt =====
-- The operations of list.h on what a list stands for.
use net_working_mini_net.Base.{
  ◌≡◌, refl, ap, sym, true, false, List, [], ◌∷◌, ◌++◌, arith, ◌==◌, Bool-cases, inl, inr, ◌↔◌,
}
use mathlib.Core.List.{append-nil}
use mathlib.Core.Path.{subst}
use net_working_mini_net.ListHead.{
  Ptr, Links, set_next, set_prev, init_list_head, list_empty, list_insert, list_add_head,
  list_add_tail, list_delete_entry,
}
use net_working_mini_net.ListHead.Chain.{
  has, Distinct, Chain, IsRing, last, first, has-append, has-last, ne_of_has, Chain-append,
  Chain-split, prev-last, next-first, Chain-frame, Chain-redirect,
}

-- A fresh head is an empty list.
pub init_list_head-IsRing : (h : Links) (head : Ptr) → IsRing (init_list_head h head) head []
unfolding init_list_head
init_list_head-IsRing h head = record { chain = ground arith; distinct = (refl, tt) }

Distinct-snoc : (xs : List Ptr) (n : Ptr) → Distinct xs → has n xs ≡ false → Distinct (xs ++ n ∷ [])
Distinct-snoc [] n d out = (refl, tt)
Distinct-snoc (x ∷ xs) n d out =
    (rw has-append (ground arith), Distinct-snoc xs n d.1 (ground arith))

module _ (h : Links) (head n : Ptr) (xs : List Ptr) (ring : IsRing h head xs)
    (new : has n (head ∷ xs) ≡ false) where
  tail_link : Links
  unfolding list_insert
  tail_link = list_insert h n (last head xs) head

  add_tail-Chain : Chain tail_link head (xs ++ n ∷ []) head
  unfolding tail_link
  add_tail-Chain =
      let d = ring.distinct in
      let lh = has-last head xs in
      let ln = ne_of_has n (last head xs) (head ∷ xs) new lh in
      Chain-append tail_link head xs n [] head
        (Chain-redirect h tail_link head xs head n ring.chain d (ground arith) (ground arith)
          (λ a i ne. let an = ne_of_has n a (head ∷ xs) new i in ground arith)
          (λ a i.
            let ah = ne_of_has head a xs d.0 i in
            let an = ne_of_has n a (head ∷ xs) new (ground arith) in ground arith))
        (ground arith)

  -- `list_add_tail` of a node that is not in the ring puts it behind the last entry.
  pub list_add_tail-append : IsRing (list_add_tail h n head) head (xs ++ n ∷ [])
  unfolding list_add_tail tail_link
  list_add_tail-append = record {
    chain = rw (prev-last h head xs head ring.chain) add_tail-Chain;
    distinct = Distinct-snoc (head ∷ xs) n ring.distinct new;
  }

list_add_head-insert :
    (h : Links) (head n x : Ptr) → h.next head ≡ x → list_add_head h n head ≡ list_insert h n head x
unfolding list_add_head
list_add_head-insert h head n x e = ap (list_insert h n head) e

insert-front :
    (h : Links) (head n x : Ptr) (xs : List Ptr)
    → IsRing h head (x ∷ xs)
    → has n (head ∷ x ∷ xs) ≡ false
    → Chain (list_insert h n head x) head (n ∷ x ∷ xs) head
unfolding list_insert
insert-front h head n x xs ring new =
    let d = ring.distinct in
    (
      ground arith,
      ground arith,
      (
        ground arith,
        ground arith,
        Chain-frame h (list_insert h n head x) x xs head ring.chain.2
            (λ a i.
              let ah = ne_of_has head a (x ∷ xs) d.0 i in
              let an = ne_of_has n a (x ∷ xs) (ground arith) i in ground arith)
            (λ a i.
              let ax = ne_of_has x a (head ∷ xs) (ground arith) i in
              let an = ne_of_has n a (head ∷ xs) (ground arith) i in ground arith),
      ),
    )

-- `list_add_head` of a node that is not in the ring puts it in front of the first entry.
pub list_add_head-cons :
    (h : Links) (head n : Ptr) (xs : List Ptr)
    → IsRing h head xs
    → has n (head ∷ xs) ≡ false
    → IsRing (list_add_head h n head) head (n ∷ xs)
list_add_head-cons h head n [] ring new = record {
  chain = let c = ring.chain in unfold list_add_head in ground arith;
  distinct = ground arith;
}
list_add_head-cons h head n (x ∷ xs) ring new =
    let d = ring.distinct in
    record {
      chain =
          subst (λ g. Chain g head (n ∷ x ∷ xs) head)
            (sym (list_add_head-insert h head n x ring.chain.0))
            (insert-front h head n x xs ring new);
      distinct = ground arith;
    }

-- Facts on a list of distinct addresses that is cut at one of them.
not_has-left : (a : Ptr) (xs ys : List Ptr) → has a (xs ++ ys) ≡ false → has a xs ≡ false
not_has-left a xs ys h = ground (arith, has-append a xs ys)

pub not_has-right : (a : Ptr) (xs ys : List Ptr) → has a (xs ++ ys) ≡ false → has a ys ≡ false
not_has-right a xs ys h = ground (arith, has-append a xs ys)

Distinct-left : (xs ys : List Ptr) → Distinct (xs ++ ys) → Distinct xs
Distinct-left [] ys d = tt
Distinct-left (x ∷ xs) ys d = (not_has-left x xs ys d.0, Distinct-left xs ys d.1)

Distinct-right : (xs ys : List Ptr) → Distinct (xs ++ ys) → Distinct ys
Distinct-right [] ys d = d
Distinct-right (x ∷ xs) ys d = Distinct-right xs ys d.1

Distinct-drop :
    (xs : List Ptr) (n : Ptr) (ys : List Ptr) → Distinct (xs ++ n ∷ ys) → Distinct (xs ++ ys)
Distinct-drop [] n ys d = d.1
Distinct-drop (x ∷ xs) n ys d =
    (ground (arith, has-append x xs (n ∷ ys), has-append x xs ys), Distinct-drop xs n ys d.1)

Distinct-apart :
    (a b : Ptr) (xs ys : List Ptr)
    → Distinct (xs ++ ys)
    → has a xs ≡ true
    → has b ys ≡ true
    → (a == b) ≡ false
Distinct-apart a b [] ys d i j = cc
Distinct-apart a b (x ∷ xs) ys d i j = elim (Bool-cases (a == x)) [
  | inl e ↦ ground (arith, ne_of_has x b ys (not_has-right x xs ys d.0) j)
  | inr e ↦ Distinct-apart a b xs ys d.1 (ground arith) j
]

pub has-first : (bs : List Ptr) (q : Ptr) → has (first bs q) (q ∷ bs) ≡ true
has-first [] q = ground arith
has-first (b ∷ bs) q = ground arith

-- The two stores of `list_delete_entry`, with the neighbours of the entry named.
unfoldable pub bypass : Links → (l f : Ptr) → Links
unfolding set_next set_prev
bypass h l f = set_next (set_prev h f l) l f

module _ (h : Links) (head : Ptr) (xs : List Ptr) (n : Ptr) (ys : List Ptr)
    (ring : IsRing h head (xs ++ n ∷ ys)) where
  pub list_delete_entry-bypass : list_delete_entry h n ≡ bypass h (last head xs) (first ys head)
  unfolding list_delete_entry bypass
  list_delete_entry-bypass =
      let (c, d) = Chain-split h head xs n ys head ring.chain in
      let dn = Distinct-right xs (n ∷ ys) ring.distinct.1 in
      let nh = not_has-right head xs (n ∷ ys) ring.distinct.0 in
      let ne = ne_of_has n (first ys head) (head ∷ ys) (ground arith) (has-first ys head) in
      let e : (first ys head == n) ≡ false = ground arith in
      rw (prev-last h head xs n c, next-first h n ys head d, e)

module _ (h : Links) (head : Ptr) (xs : List Ptr) where
  bypass-Chain :
      (n : Ptr) (ys : List Ptr)
      → IsRing h head (xs ++ n ∷ ys)
      → Chain (bypass h (last head xs) (first ys head)) head (xs ++ ys) head
  unfolding bypass
  bypass-Chain n [] ring =
      let (c, _) = Chain-split h head xs n [] head ring.chain in
      let d = Distinct-left (head ∷ xs) (n ∷ []) ring.distinct in
      rw append-nil (
        Chain-redirect h (bypass h (last head xs) head) head xs n head c d (ground arith)
          (ground arith) (λ a i ne. ground arith)
          (λ a i. let ah = ne_of_has head a xs d.0 i in ground arith))
  bypass-Chain n (y ∷ ys) ring =
      let (c, e) = Chain-split h head xs n (y ∷ ys) head ring.chain in
      let d = Distinct-left (head ∷ xs) (n ∷ y ∷ ys) ring.distinct in
      let dy = Distinct-right xs (n ∷ y ∷ ys) ring.distinct.1 in
      let g = bypass h (last head xs) y in
      Chain-append g head xs y ys head
        (Chain-redirect h g head xs n y c d (ground arith) (ground arith) (λ a i ne. ground arith)
          (λ a i.
            let ay = Distinct-apart a y xs (n ∷ y ∷ ys) ring.distinct.1 i (ground arith) in
            ground arith))
        (Chain-frame h g y ys head e.2
          (λ a i.
            let la =
              Distinct-apart (last head xs) a (head ∷ xs) (n ∷ y ∷ ys) ring.distinct
                (has-last head xs) (ground arith) in
            ground arith)
          (λ a i.
            let yh = Distinct-apart head y (head ∷ xs) (n ∷ y ∷ ys) ring.distinct in
            let ya = ne_of_has y a ys dy.1.0 in ground (arith, yh (ground arith) (ground arith))))

-- `list_delete_entry` of an entry of a ring takes it out and keeps the order of the others.
pub list_delete_entry-drop :
    (h : Links) (head : Ptr) (xs : List Ptr) (n : Ptr) (ys : List Ptr)
    → IsRing h head (xs ++ n ∷ ys)
    → IsRing (list_delete_entry h n) head (xs ++ ys)
list_delete_entry-drop h head xs n ys ring = record {
  chain = rw (list_delete_entry-bypass h head xs n ys ring) (bypass-Chain h head xs n ys ring);
  distinct = Distinct-drop (head ∷ xs) n ys ring.distinct;
}

-- On a ring, `list_empty` tells whether there is no entry.
pub list_empty_lem :
    (h : Links) (head : Ptr) (xs : List Ptr)
    → IsRing h head xs
    → (list_empty h head ≡ true) ↔ (xs ≡ [])
unfolding list_empty
list_empty_lem h head [] ring = let c = ring.chain in ground arith
list_empty_lem h head (x ∷ xs) ring = let c = ring.chain in let d = ring.distinct in ground arith
