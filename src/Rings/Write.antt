-- ===== src/Rings/Write.antt =====
-- Writes to nodes that leave every list as it is.
use net_working_mini_net.Base.{
  ℕ, ◌<◌, ◌≡◌, refl, ap, ap₂, ◌∙◌, true, false, List, [], ◌∷◌, map, arith,
}
use net_working_mini_net.Hash.{hash_8bits}
use net_working_mini_net.ListHead.{Ptr, Links, init_list_head, set_next, set_prev}
use net_working_mini_net.ListHead.Chain.{has, IsRing, ne_of_has, Chain-frame}
use net_working_mini_net.Rings.{Store}
use net_working_mini_net.Rings.Stores.{Stores, IsFresh}

init_list_head-frame :
    (h : Links) (head n : Ptr) (xs : List Ptr)
    → has n (head ∷ xs) ≡ false
    → IsRing h head xs
    → IsRing (init_list_head h n) head xs
unfolding init_list_head set_next set_prev
init_list_head-frame h head n xs fresh ring = record {
  chain =
      Chain-frame h (init_list_head h n) head xs head ring.chain
        (λ a i. let an = ne_of_has n a (head ∷ xs) fresh i in ground arith)
        (λ a i. let an = ne_of_has n a (head ∷ xs) fresh i in ground arith);
  distinct = ring.distinct;
}

module _ {A : Type 0} where
  map-through :
      (f e : Ptr → A) (g : A → A) (xs : List Ptr)
      → ((a : Ptr) → has a xs ≡ true → f a ≡ g (e a))
      → map f xs ≡ map g (map e xs)
  map-through f e g [] same = refl
  map-through f e g (x ∷ xs) same =
      ap₂ (λ b bs. b ∷ bs) (same x (ground arith))
        (map-through f e g xs (λ a i. same a (ground arith)))

  module _ (heads : ℕ → Ptr) (s : Store A) (t : ℕ → List A) (nodes : ℕ → List Ptr)
      (r : Stores heads s t nodes) where
    -- A node that is in no list becomes an empty list of its own.
    pub init_node-Stores :
        (n : Ptr)
        → IsFresh heads nodes n
        → Stores heads (record s { links = init_list_head s.links n }) t nodes
    init_node-Stores n fresh = record {
      ring = λ i b. init_list_head-frame s.links (heads i) n (nodes i) (fresh i b) (r.ring i b);
      content = r.content;
      apart = r.apart;
    }

    -- Entries are written where they stand.
    pub write-Stores :
        (f : Ptr → A) (g : A → A)
        → ((i : ℕ) → i < hash_8bits → (a : Ptr) → has a (nodes i) ≡ true → f a ≡ g (s.entry a))
        → Stores heads (record s { entry = f }) (λ i. map g (t i)) nodes
    write-Stores f g same = record {
      ring = r.ring;
      content = λ i b. map-through f s.entry g (nodes i) (same i b) ∙ ap (map g) (r.content i b);
      apart = r.apart;
    }
