-- ===== src/Device/Available.antt =====
-- What the start finds: the interfaces, and which of them open.
use mathlib.Core.Option
use mathlib.Core.List.{append-nil, append_assoc}
use net_working_mini_net.Base.{
  ℕ, suc, ◌+◌, ◌≡◌, ◌↔◌, refl, ap₂, sym, ◌∙◌, inl, inr, true, none, some, List, [], ◌∷◌, ◌++◌, ◌==◌,
  if◌then◌else◌, keep, map, length, arith, Bool-cases, >>=-some,
}
use net_working_mini_net.Device.{
  IfAddr, Os, is_available, find_from, find_available_ifaces, try_open,
}

-- The names of the interfaces that the programs use.
abbrev pub available : List IfAddr → List (List ℕ)
available addrs = map (λ a. a.ifa_name) (keep is_available addrs)

find_from_lem :
    (addrs : List IfAddr) (names : List (List ℕ)) (nifs : ℕ)
    → find_from addrs names nifs ≡ (names ++ available addrs, nifs + length (available addrs))
unfolding find_from
find_from_lem [] names nifs =
    let n : nifs ≡ nifs + 0 = omega arith in
    ap₂ (λ (l : List (List ℕ)) (m : ℕ). (l, m)) (sym (append-nil names)) n
find_from_lem (a ∷ addrs) names nifs = elim (Bool-cases (is_available a)) [
  | inl e ↦
      let n : suc nifs + length (available addrs) ≡ nifs + suc (length (available addrs)) =
        omega arith in
      rw e (
        find_from_lem addrs (names ++ a.ifa_name ∷ []) (suc nifs)
        ∙ ap₂ (λ (l : List (List ℕ)) (m : ℕ). (l, m))
            (append_assoc names (a.ifa_name ∷ []) (available addrs)) n)
  | inr e ↦ rw e (find_from_lem addrs names nifs)
]

-- `find_available_ifaces` gives the names of all AF_PACKET addresses with "-eth" in their name, in
-- order, and their number; it exits exactly if there is none.
pub find_available_ifaces_lem :
    (addrs : List IfAddr)
    → find_available_ifaces addrs ≡ (
        if length (available addrs) == 0
        then none
        else some (available addrs, length (available addrs)))
unfolding find_available_ifaces
find_available_ifaces_lem addrs =
    let n : 0 + length (available addrs) ≡ length (available addrs) = omega arith in
    rw (find_from_lem addrs [] 0, n) refl

-- A device opens exactly if none of the four calls fails, and its descriptor is the raw socket's.
pub try_open_iff :
    (os : Os) (dname : List ℕ) (fd : ℕ)
    → (try_open os dname ≡ some fd) ↔ (
        (os.socket_raw dname ≡ some fd)
        × ((index : ℕ) × (mac : List ℕ) × (os.get_index dname ≡ some index)
            × (os.bind_index index ≡ true)
            × (os.get_hwaddr dname ≡ some mac)))
unfolding try_open
try_open_iff os dname fd = (
  λ h.
      let (sd, made, h₁) = >>=-some (os.socket_raw dname) _ h in
      let (index, found, h₂) = >>=-some (os.get_index dname) _ h₁ in
      let (mac, known, h₃) =
        >>=-some (if os.bind_index index then os.get_hwaddr dname else none) _ h₂ in
      elim (Bool-cases (os.bind_index index)) [
        | inl e ↦ (made ∙ h₃, (index, mac, found, e, rw e at known))
        | inr e ↦ absurd (Option.none-ne-some mac (rw e at known))
      ],
  λ h. rw (h.0, h.1.2, h.1.3, h.1.4) refl,
)
