-- ===== src/NatStack/Start/Opened.antt =====
-- What `init_all_ifaces` of nat_stack has made when it returns.
use mathlib.Core.Option
use mathlib.Core.Path.{subst}
use net_working_mini_net.Base.{
  ℕ, ◌<◌, ◌≡◌, ◌≢◌, refl, ap, ap₂, sym, ◌∙◌, none, some, List, [], ◌∷◌, >>=-some, map, length,
  length-map, All, ◌==◌, Bool-cases, inl, inr, arith,
}
use net_working_mini_net.Device.{IfAddr, Os, Ustack, no_fd, open_device, find_available_ifaces}
use net_working_mini_net.Device.Available.{available, find_available_ifaces_lem}
use net_working_mini_net.NatStack.{Iface}
use net_working_mini_net.NatStack.Start.{read_iface_info, read_ifaces, init_all_ifaces}

-- An interface with a descriptor.
abbrev pub IsOpen : Iface → Type 0
IsOpen i = i.fd ≢ no_fd

-- The interfaces of the names, in order, their descriptors beside them.
pub record Opened (names : List (List ℕ)) (ifaces : List Iface) (fds : List ℕ) : Type 0 where
  pub same_names : map (λ i. i.name) ifaces ≡ names
  pub same_fds : fds ≡ map (λ i. i.fd) ifaces
  pub all_open : All IsOpen ifaces

module _ (os : Os) (bad_fd : (name : List ℕ) → os.get_addr no_fd name ≡ none) where
  read_iface_info_lem :
      (name : List ℕ) (i : Iface) → read_iface_info os name ≡ some i → (i.name ≡ name) × IsOpen i
  unfolding read_iface_info
  read_iface_info_lem name i e =
      let (ip, known, e₁) = >>=-some (os.get_addr (open_device os name) name) _ e in
      let (mask, masked, e₂) = >>=-some (os.get_netmask (open_device os name) name) _ e₁ in
      let same = Option.some_inj.0 e₂ in
      (
        ap (λ (j : Iface). j.name) (sym same),
        λ closed.
            let n : open_device os name ≡ no_fd = ap (λ (j : Iface). j.fd) same ∙ closed in
            Option.none-ne-some ip
              (sym (bad_fd name) ∙ sym (ap (λ fd. os.get_addr fd name) n) ∙ known),
      )

  read_ifaces_lem :
      (names : List (List ℕ)) (r : List Iface × List ℕ)
      → read_ifaces os names ≡ some r
      → Opened names r.0 r.1
  unfolding read_ifaces
  read_ifaces_lem [] r e =
      subst (λ (s : List Iface × List ℕ). Opened [] (s.0) (s.1)) (Option.some_inj.0 e)
        (record { same_names = refl; same_fds = refl; all_open = tt })
  read_ifaces_lem (name ∷ names) r e =
      let (iface, read, e₁) = >>=-some (read_iface_info os name) _ e in
      let (rest, reads, e₂) = >>=-some (read_ifaces os names) _ e₁ in
      let same = Option.some_inj.0 e₂ in
      let one = read_iface_info_lem name iface read in
      let others = read_ifaces_lem names rest reads in
      subst (λ (s : List Iface × List ℕ). Opened (name ∷ names) (s.0) (s.1)) same
        (record {
          same_names = ap₂ (λ (n : List ℕ) (l : List (List ℕ)). n ∷ l) (one.0) (others.same_names);
          same_fds = ap (λ l. iface.fd ∷ l) (others.same_fds);
          all_open = (one.1, others.all_open);
        })

-- When `init_all_ifaces` returns, the interfaces are those of the AF_PACKET addresses with "-eth" in
-- the name, in order; each has a descriptor that is not -1, the `fds` are these descriptors in order,
-- and `nifs` counts them and is not 0. The condition is that SIOCGIFADDR fails on the descriptor -1.
pub init_all_ifaces_lem :
    (os : Os) (bad_fd : (name : List ℕ) → os.get_addr no_fd name ≡ none) (addrs : List IfAddr)
    (u : Ustack Iface)
    → init_all_ifaces os addrs ≡ some u
    → Opened (available addrs) (u.iface_list) (u.fds)
      × (u.nifs ≡ length (u.iface_list))
      × (0 < u.nifs)
unfolding init_all_ifaces
init_all_ifaces_lem os bad_fd addrs u e =
    let (found, finds, e₁) = >>=-some (find_available_ifaces addrs) _ e in
    let (read, reads, e₂) = >>=-some (read_ifaces os (found.0)) _ e₁ in
    let o = read_ifaces_lem os bad_fd (found.0) read reads in
    let whole = find_available_ifaces_lem addrs in
    elim (Bool-cases (length (available addrs) == 0)) [
      | inl empty ↦ absurd (Option.none-ne-some found (sym (rw empty at whole) ∙ finds))
      | inr some_names ↦
          let same = Option.some_inj.0 (sym (rw some_names at whole) ∙ finds) in
          let names : found.0 ≡ available addrs = ap (λ (f : List (List ℕ) × ℕ). f.0) (sym same) in
          let count : found.1 ≡ length (available addrs) =
            ap (λ (f : List (List ℕ) × ℕ). f.1) (sym same) in
          let measured =
            sym (ap length (o.same_names ∙ names)) ∙ length-map (λ (i : Iface). i.name) (read.0) in
          let positive : 0 < found.1 = ground arith in
          subst
            (λ (v : Ustack Iface).
              Opened (available addrs) (v.iface_list) (v.fds)
              × (v.nifs ≡ length (v.iface_list))
              × (0 < v.nifs))
            (Option.some_inj.0 e₂)
            (subst (λ n. Opened n (read.0) (read.1)) names o, count ∙ measured, positive)
    ]
