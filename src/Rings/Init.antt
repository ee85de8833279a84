-- ===== src/Rings/Init.antt =====
-- The initialisation of the lists.
use mathlib.Core.Path.{subst}
use net_working_mini_net.Base.{
  ℕ, zero, suc, ◌+◌, ◌≤◌, ◌<◌, ◌≡◌, refl, inl, inr, false, [], ◌==◌, arith, Bool-cases,
}
use net_working_mini_net.Hash.{hash_8bits}
use net_working_mini_net.ListHead.{Ptr, Links, init_list_head, set_next, set_prev}
use net_working_mini_net.ListHead.Chain.{IsRing}
use net_working_mini_net.ListHead.Edit.{init_list_head-IsRing}
use net_working_mini_net.Rings.{Store, init_heads}
use net_working_mini_net.Rings.Stores.{Stores}

module _ (heads : ℕ → Ptr) (unlike : (i j : ℕ) → heads i ≡ heads j → i ≡ j) where
  init_heads-keeps :
      (left i : ℕ) (h : Links) (j : ℕ)
      → j < i
      → IsRing h (heads j) []
      → IsRing (init_heads heads left i h) (heads j) []
  unfolding init_heads init_list_head set_next set_prev
  init_heads-keeps zero i h j b r = r
  init_heads-keeps (suc left) i h j b r =
      let ne : (heads i == heads j) ≡ false = ground (arith, unlike i j) in
      let c = r.chain in
      init_heads-keeps left (suc i) (init_list_head h (heads i)) j (omega arith)
        (record { chain = rw ne c; distinct = r.distinct })

  init_heads-IsRing :
      (left i : ℕ) (h : Links) (j : ℕ)
      → i ≤ j
      → j < i + left
      → IsRing (init_heads heads left i h) (heads j) []
  unfolding init_heads
  init_heads-IsRing zero i h j a b = absurd (omega arith)
  init_heads-IsRing (suc left) i h j a b = elim (Bool-cases (i == j)) [
    | inl e ↦ init_heads-keeps left (suc i) (init_list_head h (heads i)) j (ground arith) (
        let same : i ≡ j = ground arith in
        subst (λ k. IsRing (init_list_head h (heads i)) (heads k) []) same
          (init_list_head-IsRing h (heads i)))
    | inr e ↦
        init_heads-IsRing left (suc i) (init_list_head h (heads i)) j (ground arith) (omega arith)
  ]

  -- When the heads have different addresses, `init_list_head` on each of them makes a store of empty
  -- lists, whatever the memory held.
  pub init_heads-Stores :
      {A : Type 0} (s : Store A)
      → Stores heads
          (record s { links = init_heads heads hash_8bits 0 s.links })
          (λ i. [])
          (λ i. [])
  init_heads-Stores s = record {
    ring = λ i b. init_heads-IsRing hash_8bits 0 s.links i (omega arith) (omega arith);
    content = λ i b. refl;
    apart = λ i j b b' ne a e. ground (arith, unlike i j);
  }
