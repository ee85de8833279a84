-- ===== src/Rings/Insert.antt =====
-- A new entry of a list, and the fields of an entry that are written.
use mathlib.Core.Path.{subst}
use mathlib.Core.List.{map-append}
use net_working_mini_net.Base.{
  ℕ, ◌<◌, ◌≡◌, refl, sym, ap₂, ◌∙◌, true, List, [], ◌∷◌, ◌++◌, map, ==_refl, arith,
}
use net_working_mini_net.Hash.{hash_8bits}
use net_working_mini_net.Buckets.{add_tail, set_bucket}
use net_working_mini_net.ListHead.{Ptr, list_add_tail}
use net_working_mini_net.ListHead.Chain.{has, has-append, ne_of_has}
use net_working_mini_net.ListHead.Edit.{list_add_tail-append}
use net_working_mini_net.ListHead.Frame.{list_add_tail-frame}
use net_working_mini_net.Rings.{Store, set_entry, add_node}
use net_working_mini_net.Rings.Stores.{Stores, IsFresh, Replaces, replace-Stores}

map-same :
    {A : Type 0} (f g : Ptr → A) (xs : List Ptr)
    → ((a : Ptr) → has a xs ≡ true → f a ≡ g a)
    → map f xs ≡ map g xs
map-same f g [] e = refl
map-same f g (x ∷ xs) e =
    ap₂ (λ b bs. b ∷ bs) (e x (ground arith)) (map-same f g xs (λ a i. e a (ground arith)))

module _ {A : Type 0} (heads : ℕ → Ptr) (s : Store A) (t : ℕ → List A) (nodes : ℕ → List Ptr)
    (r : Stores heads s t nodes) (n : Ptr) (e : A) where
  -- The fields of a node outside all lists change no list.
  set_entry-Stores : IsFresh heads nodes n → Stores heads (set_entry s n e) t nodes
  unfolding set_entry
  set_entry-Stores fresh = record {
    ring = r.ring;
    content = λ i b.
        map-same (set_entry s n e).entry s.entry (nodes i) (λ a h.
          let ne = ne_of_has n a (heads i ∷ nodes i) (fresh i b) (ground arith) in ground arith)
        ∙ r.content i b;
    apart = r.apart;
  }

  new_entry :
      (k : ℕ)
      → k < hash_8bits
      → IsFresh heads nodes n
      → map (set_entry s n e).entry (nodes k ++ n ∷ []) ≡ t k ++ e ∷ []
  unfolding set_entry
  new_entry k b fresh =
      map-append (set_entry s n e).entry (nodes k) (n ∷ [])
      ∙ ap₂ (λ (l l' : List A). l ++ l') ((set_entry-Stores fresh).content k b) (rw ==_refl refl)

  linked :
      (k : ℕ) (b : k < hash_8bits) (fresh : IsFresh heads nodes n)
      → Replaces heads
          (set_entry s n e)
          t
          nodes
          (set_entry-Stores fresh)
          k
          b
          (list_add_tail s.links n (heads k))
          (nodes k ++ n ∷ [])
  linked k b fresh = (
    list_add_tail-append s.links (heads k) n (nodes k) (r.ring k b) (fresh k b),
    λ i c ne.
        list_add_tail-frame s.links (heads k) (heads i) (nodes i) (r.ring i c) (nodes k) n
          (r.ring k b) (fresh i c) (r.apart k i b c (λ same. ne (sym same))),
    λ i c ne a m.
        let out = r.apart i k c b ne a m in
        let an = ne_of_has n a (heads i ∷ nodes i) (fresh i c) m in
        ground (arith, has-append a (nodes k) (n ∷ [])),
  )

  -- A new node at the tail of the list `k`.
  pub add_node-Stores :
      (k : ℕ)
      → k < hash_8bits
      → IsFresh heads nodes n
      → Stores heads (add_node (heads k) n e s) (add_tail t k e) (add_tail nodes k n)
  unfolding add_node set_entry add_tail
  add_node-Stores k b fresh =
      subst
        (λ l.
          Stores heads (add_node (heads k) n e s) (set_bucket t k l)
            (set_bucket nodes k (nodes k ++ n ∷ [])))
        (new_entry k b fresh)
        (replace-Stores heads (set_entry s n e) t nodes (set_entry-Stores fresh) k b
          (list_add_tail s.links n (heads k)) (nodes k ++ n ∷ []) (linked k b fresh))
