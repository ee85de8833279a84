-- ===== src/ListHead/Race.antt =====
-- `list_add_tail` of one thread while another deletes the last entry. mac.c does so without a lock:
-- `insert_mac_port` runs in the main thread, and `sweep_aged_mac_port_entry` in the sweeping one.
-- The sweep also frees the entry that it has deleted; here the entry's fields may still be written then.
use mathlib.Core.List.{append-nil, append_assoc}
use mathlib.Core.Path.{subst}
use net_working_mini_net.Base.{
  ℕ, zero, suc, ◌+◌, ◌<◌, ◌≡◌, refl, sym, ◌∙◌, false, List, [], ◌∷◌, ◌++◌, arith, ◌==◌, ==_refl,
  length, length-append, All,
}
use net_working_mini_net.ListHead.{
  Ptr, Links, set_next, set_prev, list_insert, list_add_tail, list_delete_entry, for_each,
  list_for_each_entry,
}
use net_working_mini_net.ListHead.Chain.{has, Distinct, Chain, IsRing, last, has-append, prev-last}
use net_working_mini_net.ListHead.Walk.{list_for_each_entry_lem}
use net_working_mini_net.ListHead.Edit.{list_add_tail-append, list_delete_entry-drop}

-- `list_insert(new, head->prev, head)`: the thread reads `head->prev`, then the other thread deletes
-- `entry`, and then come the four stores.
unfoldable pub list_add_tail_raced : Links → (new head entry : Ptr) → Links
unfolding list_insert
list_add_tail_raced h new head entry =
    list_insert (list_delete_entry h entry) new (h.prev head) head

-- Further calls of `list_add_tail`, undisturbed.
unfoldable pub add_tails : Links → (head : Ptr) → List Ptr → Links
unfolding list_add_tail
add_tails h head [] = h
add_tails h head (n ∷ ns) = add_tails (list_add_tail h n head) head ns

-- The `next` fields lead through `xs`.
abbrev Forward : Links → Ptr → List Ptr → Ptr → Type 0
Forward h p [] q = h.next p ≡ q
Forward h p (x ∷ xs) q = (h.next p ≡ x) × Forward h x xs q

Chain-Forward : (h : Links) (p : Ptr) (xs : List Ptr) (q : Ptr) → Chain h p xs q → Forward h p xs q
Chain-Forward h p [] q c = c.0
Chain-Forward h p (x ∷ xs) q c = (c.0, Chain-Forward h x xs q c.2)

for_each-Forward :
    (fuel : ℕ) (h : Links) (head p : Ptr) (xs : List Ptr)
    → Forward h p xs head
    → has head xs ≡ false
    → length xs < fuel
    → for_each fuel h head (h.next p) ≡ xs
unfolding for_each
for_each-Forward zero h head p xs c d f = absurd (omega arith)
for_each-Forward (suc fuel) h head p [] c d f = rw (c, ==_refl)
for_each-Forward (suc fuel) h head p (x ∷ xs) c d f =
    let e : (x == head) ≡ false = ground arith in
    rw (c.0, e, for_each-Forward fuel h head x xs c.1 (ground arith) (omega arith))

-- An insertion behind a node that is not in the list, in front of its head.
Forward-insert :
    (h : Links) (n prev head p : Ptr) (xs : List Ptr)
    → Forward h p xs head
    → has prev (p ∷ xs) ≡ false
    → has n (p ∷ xs) ≡ false
    → Forward (list_insert h n prev head) p xs head
unfolding list_insert set_next set_prev
Forward-insert h n prev head p [] c out new =
    let a : (prev == p) ≡ false = ground arith in
    let b : (n == p) ≡ false = ground arith in rw (a, b) c
Forward-insert h n prev head p (x ∷ xs) c out new =
    let a : (prev == p) ≡ false = ground arith in
    let b : (n == p) ≡ false = ground arith in
    (rw (a, b) (c.0), Forward-insert h n prev head x xs c.1 (ground arith) (ground arith))

last-snoc : (p : Ptr) (xs : List Ptr) (n : Ptr) → last p (xs ++ n ∷ []) ≡ n
last-snoc p [] n = refl
last-snoc p (x ∷ xs) n = last-snoc x xs n

-- The list whose last entry is out of reach of the loops.
abbrev Lost : Links → (head : Ptr) → List Ptr → Type 0
Lost h head xs = Forward h head xs head × (has (h.prev head) (head ∷ xs) ≡ false)

insert-Lost :
    (h : Links) (n prev head : Ptr) (xs : List Ptr)
    → Forward h head xs head
    → has prev (head ∷ xs) ≡ false
    → has n (head ∷ xs) ≡ false
    → Lost (list_insert h n prev head) head xs
insert-Lost h n prev head xs c out new =
    let ne : (n == head) ≡ false = ground arith in
    let back : (list_insert h n prev head).prev head ≡ n =
      unfold list_insert set_next set_prev in rw (ne, ==_refl) refl in
    (
      Forward-insert h n prev head head xs c out new,
      subst (λ a. has a (head ∷ xs) ≡ false) (sym back) new,
    )

add_tails-Lost :
    (h : Links) (head : Ptr) (xs ns : List Ptr)
    → Lost h head xs
    → All (λ n. has n (head ∷ xs) ≡ false) ns
    → Lost (add_tails h head ns) head xs
unfolding add_tails
add_tails-Lost h head xs [] l fresh = l
add_tails-Lost h head xs (n ∷ ns) l fresh =
    add_tails-Lost (list_add_tail h n head) head xs ns
      (unfold list_add_tail in insert-Lost h n (h.prev head) head xs l.0 l.1 fresh.0) fresh.1

snoc-out : (xs : List Ptr) (n : Ptr) → Distinct (xs ++ n ∷ []) → has n xs ≡ false
snoc-out [] n d = refl
snoc-out (x ∷ xs) n d = ground (arith, snoc-out xs n, has-append x xs (n ∷ []))

module _ (h : Links) (head : Ptr) (xs : List Ptr) (entry new : Ptr) (fuel : ℕ)
    (ring : IsRing h head (xs ++ entry ∷ []))
    (fresh : has new (head ∷ xs ++ entry ∷ []) ≡ false) where
  left : IsRing (list_delete_entry h entry) head xs
  left = rw append-nil at (list_delete_entry-drop h head xs entry [] ring)

  new_out : has new (head ∷ xs) ≡ false
  new_out = ground (arith, has-append new xs (entry ∷ []))

  -- The deletion as a whole before the insertion, and behind it.
  delete_first :
      length xs + 1 < fuel
      → list_for_each_entry fuel (list_add_tail (list_delete_entry h entry) new head) head
        ≡ xs ++ new ∷ []
  delete_first f =
      list_for_each_entry_lem fuel _ head (xs ++ new ∷ [])
        (list_add_tail-append (list_delete_entry h entry) head new xs left new_out)
        (omega (arith, length-append xs (new ∷ [])))

  insert_first :
      length xs + 1 < fuel
      → list_for_each_entry fuel (list_delete_entry (list_add_tail h new head) entry) head
        ≡ xs ++ new ∷ []
  insert_first f =
      list_for_each_entry_lem fuel _ head (xs ++ new ∷ [])
        (list_delete_entry-drop (list_add_tail h new head) head xs entry (new ∷ [])
          (rw append_assoc at (list_add_tail-append h head new (xs ++ entry ∷ []) ring fresh)))
        (omega (arith, length-append xs (new ∷ [])))

  raced :
      (later : List Ptr)
      → All (λ n. has n (head ∷ xs) ≡ false) later
      → length xs < fuel
      → list_for_each_entry fuel (add_tails (list_add_tail_raced h new head entry) head later) head
        ≡ xs
  unfolding list_for_each_entry list_add_tail_raced
  raced later fresh' f =
      let back : h.prev head ≡ entry =
        prev-last h head (xs ++ entry ∷ []) head ring.chain ∙ last-snoc head xs entry in
      let lost =
        insert-Lost (list_delete_entry h entry) new entry head xs
          (Chain-Forward (list_delete_entry h entry) head xs head left.chain)
          (snoc-out (head ∷ xs) entry ring.distinct) new_out in
      let (forward, _) =
        add_tails-Lost (list_insert (list_delete_entry h entry) new entry head) head xs later lost
          fresh' in
      rw back (for_each-Forward fuel _ head head xs forward left.distinct.0 f)

-- A node outside a ring is put at its tail, and the last entry deleted. In either order, if each is done as
-- a whole, the loops then visit the entries that remain and the new one. If the deletion comes between the
-- read of `head->prev` and the stores of `list_add_tail`, they visit the entries that remain, but neither
-- the new one nor any of those that further calls of `list_add_tail` put in, if these are not in the ring.
-- There is more fuel than entries.
pub list_add_tail_raced-loses :
    (h : Links) (head : Ptr) (xs : List Ptr) (entry new : Ptr) (later : List Ptr) (fuel : ℕ)
    → IsRing h head (xs ++ entry ∷ [])
    → has new (head ∷ xs ++ entry ∷ []) ≡ false
    → All (λ n. has n (head ∷ xs) ≡ false) later
    → length xs + 1 < fuel
    → (list_for_each_entry fuel (list_add_tail (list_delete_entry h entry) new head) head
        ≡ xs ++ new ∷ [])
      × (list_for_each_entry fuel (list_delete_entry (list_add_tail h new head) entry) head
          ≡ xs ++ new ∷ [])
      × (list_for_each_entry fuel (add_tails (list_add_tail_raced h new head entry) head later) head
          ≡ xs)
list_add_tail_raced-loses h head xs entry new later fuel ring fresh fresh' f = (
  delete_first h head xs entry new fuel ring fresh f,
  insert_first h head xs entry new fuel ring fresh f,
  raced h head xs entry new fuel ring fresh later fresh' (omega arith),
)
