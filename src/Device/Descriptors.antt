-- ===== src/Device/Descriptors.antt =====
-- The search for an interface by its descriptor, as both main loops make it.
use net_working_mini_net.Base.{
  ℕ, ◌≡◌, refl, inl, inr, some, List, [], ◌∷◌, ◌==◌, ==_refl, find, map, All, All-map, Bool-cases,
}

module _ {I : Type 0} (fd_of : I → ℕ) where
  -- The descriptor belongs to an interface of the list.
  abbrev pub Known : List I → ℕ → Type 0
  Known ifaces fd = (i : I) × (find (λ iface. fd_of iface == fd) ifaces ≡ some i)

  Known-cons : (i : I) (ifaces : List I) (fd : ℕ) → Known ifaces fd → Known (i ∷ ifaces) fd
  Known-cons i ifaces fd (j, e) = elim (Bool-cases (fd_of i == fd)) [
    | inl h ↦ (i, rw h refl)
    | inr h ↦ (j, rw h e)
  ]

  -- The search finds an interface for each descriptor of the list.
  pub fds-Known : (ifaces : List I) → All (Known ifaces) (map fd_of ifaces)
  fds-Known [] = tt
  fds-Known (i ∷ ifaces) = (
    (i, rw (==_refl (fd_of i)) refl),
    All-map (Known ifaces) (Known (i ∷ ifaces)) (map fd_of ifaces) (Known-cons i ifaces)
        (fds-Known ifaces),
  )
