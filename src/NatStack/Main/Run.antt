-- ===== src/NatStack/Main/Run.antt =====
-- The dispatch of nat_stack/main.c and its poll loop over the table of nat.c.
use mathlib.Core.Option
use net_working_mini_net.Base.{
  ◌+◌, ◌-◌, leb, true, htons-lt, arith, ℕ, ◌≤◌, ◌<◌, ◌^◌, ◌≡◌, refl, inl, inr, ◌&&◌, Option, none,
  some, List, [], ◌∷◌, ◌++◌, ◌==◌, map, All, All-append, Bool-cases, htons, htonl,
}
use net_working_mini_net.Device.Descriptors.{Known, fds-Known}
use net_working_mini_net.Packet.{
  Bytes, ip_hdr_size, protocol, ipproto_icmp, daddr, icmp_type, icmp_echorequest, ether_type,
  eth_p_ip, eth_p_arp, ether_hdr_size, ip_hdr, tot_len, ipproto_tcp, tcp_hdr,
}
use net_working_mini_net.Packet.Fields.{IsBytes}
use net_working_mini_net.Packet.Checksum.{tcp_len}
use net_working_mini_net.Switch.Main.{Receive, Poll, failed, outgoing, frame, nothing, ready}
use net_working_mini_net.NatStack.{Iface, Table, Action}
use net_working_mini_net.NatStack.Linear.{nat_translate_packet}
use net_working_mini_net.NatStack.Linear.Invariant.{WellFormed}
use net_working_mini_net.NatStack.Linear.Actions.{IsValidAction, nat_translate_packet-IsValidAction}
use net_working_mini_net.NatStack.Linear.Translate.{nat_translate_packet-WellFormed}
use net_working_mini_net.NatStack.Main.{
  inside_ip, inside_frame, fd_to_iface, handle_ip_packet, handle_packet, handle_receive,
  handle_ready, ustack_run,
}

-- An IP packet in a frame of `len` bytes: legal header and total lengths, the whole packet inside the frame,
-- and room for the header of ICMP or TCP.
pub record IsIpFrame (p : Bytes) (len : ℕ) : Type 0 where
  pub header : 20 ≤ ip_hdr_size p
  pub total : ip_hdr_size p ≤ htons (tot_len p)
  pub whole : ip_hdr + htons (tot_len p) ≤ len
  pub icmp : protocol p ≡ ipproto_icmp → ip_hdr_size p + 8 ≤ htons (tot_len p)
  pub tcp : protocol p ≡ ipproto_tcp → ip_hdr_size p + 20 ≤ htons (tot_len p)

-- What a descriptor delivers is made of bytes, holds an Ethernet header, and if its type is IP, an IP packet
-- as above.
abbrev pub IsFrame : Option Receive → Type 0
IsFrame none = Unit {0}
IsFrame (some failed) = Unit {0}
IsFrame (some outgoing) = Unit {0}
IsFrame (some (frame packet len)) =
    IsBytes packet
    × (ether_hdr_size ≤ len)
    × (htons (ether_type packet) ≡ eth_p_ip → IsIpFrame packet len)

tcp_len-legal :
    (p : Bytes) → ip_hdr_size p ≤ htons (tot_len p) → tcp_len p ≡ htons (tot_len p) - ip_hdr_size p
unfolding tcp_len
tcp_len-legal p h = omega (arith, htons-lt (tot_len p))

-- The handlers touch nothing outside such a frame.
inside_ip-IsIpFrame :
    (iface : Iface) (p : Bytes) (len : ℕ) → IsIpFrame p len → inside_ip iface p len ≡ true
unfolding inside_ip tcp_hdr
inside_ip-IsIpFrame iface p len f =
    let n = tcp_len-legal p f.total in
    let up_to_daddr : leb 34 len ≡ true = ground (arith, f.header, f.total, f.whole) in
    elim (Bool-cases (protocol p == ipproto_icmp && htonl (daddr p) == iface.ip)) [
      | inl e ↦
          let is : protocol p ≡ ipproto_icmp = ground arith in
          let type_in : leb (14 + ip_hdr_size p + 1) len ≡ true =
            ground (arith, f.icmp is, f.whole) in
          rw (up_to_daddr, e, type_in) refl
      | inr e ↦ elim (Bool-cases (protocol p == ipproto_tcp)) [
        | inl e' ↦
            let is : protocol p ≡ ipproto_tcp = ground arith in
            let room = f.tcp is in
            let header_in : leb (14 + ip_hdr_size p) len ≡ true = ground (arith, room, f.whole) in
            let checksum_in : leb (14 + ip_hdr_size p + 16 + 2) len ≡ true =
              ground (arith, room, f.whole) in
            let segment_in : leb (14 + ip_hdr_size p + tcp_len p) len ≡ true =
              ground (arith, n, room, f.whole) in
            rw (up_to_daddr, e, e', header_in, checksum_in, segment_in) refl
        | inr e' ↦ rw (up_to_daddr, e, e') refl
      ]
    ]

inside_frame-IsFrame :
    (iface : Iface) (p : Bytes) (len : ℕ)
    → IsFrame (some (frame p len))
    → inside_frame iface p len ≡ true
unfolding inside_frame
inside_frame-IsFrame iface p len f =
    let ethernet : leb 14 len ≡ true = let h = f.1 in ground arith in
    elim (Bool-cases (htons (ether_type p) == eth_p_ip)) [
      | inl e ↦ rw (ethernet, e) (inside_ip-IsIpFrame iface p len (f.2 (ground arith)))
      | inr e ↦ rw (ethernet, e) refl
    ]

abbrev pub IsRound : Poll → Type 0
IsRound nothing = Unit {0}
IsRound (ready now rs) = All IsFrame rs

-- A table that is well-formed, and calls whose packets have valid IP checksums.
abbrev pub IsSound : Table × List Action → Type 0
IsSound r = WellFormed r.0 × All IsValidAction r.1

-- A run that met no NULL interface and touched nothing outside a frame, and is sound.
abbrev pub EndsSound : Option (Table × List Action) → Type 0
EndsSound r = (t : Table) × (sent : List Action) × (r ≡ some (t, sent)) × IsSound (t, sent)

module _ (inet_addr : List ℕ → ℕ) (is_u32 : (s : List ℕ) → inet_addr s < 2 ^ 32)
    (malloc : Table → ℕ) (now : ℕ) where
  module _ (t : Table) (iface : Iface) (p : Bytes) (len : ℕ) (w : WellFormed t) (bytes : IsBytes p)
      (long : htons (ether_type p) ≡ eth_p_ip → 20 ≤ ip_hdr_size p) where
    translates :
        htons (ether_type p) ≡ eth_p_ip
        → IsSound (nat_translate_packet inet_addr now (malloc t) t p len)
    translates is = (
      nat_translate_packet-WellFormed inet_addr is_u32 now (malloc t) t w p len bytes (long is),
      nat_translate_packet-IsValidAction inet_addr now (malloc t) t p len bytes (long is),
    )

    handle_ip_packet-IsSound :
        htons (ether_type p) ≡ eth_p_ip
        → IsSound (handle_ip_packet inet_addr malloc now t iface p len)
    unfolding handle_ip_packet
    handle_ip_packet-IsSound is =
        elim (Bool-cases (protocol p == ipproto_icmp && htonl (daddr p) == iface.ip)) [
          | inl e ↦ elim (Bool-cases (icmp_type p == icmp_echorequest)) [
            | inl e' ↦ rw (e, e') (w, (tt, (tt, tt)))
            | inr e' ↦ rw (e, e') (w, (tt, tt))
          ]
          | inr e ↦ rw e (translates is)
        ]

    handle_packet-IsSound : IsSound (handle_packet inet_addr malloc now t iface p len)
    unfolding handle_packet
    handle_packet-IsSound = elim (Bool-cases (htons (ether_type p) == eth_p_ip)) [
      | inl e ↦ rw e (handle_ip_packet-IsSound (ground arith))
      | inr e ↦ elim (Bool-cases (htons (ether_type p) == eth_p_arp)) [
        | inl e' ↦ rw (e, e') (w, (tt, tt))
        | inr e' ↦ rw (e, e') (w, tt)
      ]
    ]

  module _ (ifaces : List Iface) where
    handle_receive_sound :
        (fd : ℕ) (r : Option Receive) (t : Table)
        → Known (λ (i : Iface). i.fd) ifaces fd
        → IsFrame r
        → WellFormed t
        → EndsSound (handle_receive inet_addr malloc now ifaces fd r t)
    unfolding handle_receive fd_to_iface Option.bind
    handle_receive_sound fd none t k f w = (t, [], refl, (w, tt))
    handle_receive_sound fd (some failed) t k f w = (t, [], refl, (w, tt))
    handle_receive_sound fd (some outgoing) t k f w = (t, [], refl, (w, tt))
    handle_receive_sound fd (some (frame packet len)) t (iface, e) f w =
        let (t', sent) = handle_packet inet_addr malloc now t iface packet len in
        (
          t',
          sent,
          rw (e, inside_frame-IsFrame iface packet len f) refl,
          handle_packet-IsSound t iface packet len w f.0 (λ is. (f.2 is).header),
        )

    handle_ready_sound :
        (fds : List ℕ) (rs : List (Option Receive)) (t : Table)
        → All (Known (λ (i : Iface). i.fd) ifaces) fds
        → All IsFrame rs
        → WellFormed t
        → EndsSound (handle_ready inet_addr malloc now ifaces fds rs t)
    unfolding handle_ready Option.bind
    handle_ready_sound [] rs t k f w = (t, [], refl, (w, tt))
    handle_ready_sound (fd ∷ fds) [] t k f w = (t, [], refl, (w, tt))
    handle_ready_sound (fd ∷ fds) (r ∷ rs) t k f w =
        let (t₁, sent₁, e₁, s₁) = handle_receive_sound fd r t k.0 f.0 w in
        let (t₂, sent₂, e₂, s₂) = handle_ready_sound fds rs t₁ k.1 f.1 s₁.0 in
        (t₂, sent₁ ++ sent₂, rw (e₁, e₂), (s₂.0, All-append IsValidAction sent₁ sent₂ s₁.1 s₂.1))

-- If the addresses that `inet_addr` gives have 32 bits, the table is well-formed at the start, and every
-- frame that the sockets deliver is made of bytes and whole, then the poll loop of nat_stack never meets a
-- NULL interface, no handler touches memory outside its copy of a frame, the table is well-formed at the end, and each packet handed to
-- `ip_send_packet` has a valid IP checksum.
pub nat_ustack_run_sound :
    (inet_addr : List ℕ → ℕ) (malloc : Table → ℕ) (ifaces : List Iface) (polls : List Poll)
    (t : Table)
    → ((s : List ℕ) → inet_addr s < 2 ^ 32)
    → All IsRound polls
    → WellFormed t
    → EndsSound (ustack_run inet_addr malloc ifaces polls t)
unfolding ustack_run Option.bind
nat_ustack_run_sound inet_addr malloc ifaces [] t u f w = (t, [], refl, (w, tt))
nat_ustack_run_sound inet_addr malloc ifaces (nothing ∷ polls) t u f w =
    nat_ustack_run_sound inet_addr malloc ifaces polls t u f.1 w
nat_ustack_run_sound inet_addr malloc ifaces (ready now rs ∷ polls) t u f w =
    let (t₁, sent₁, e₁, s₁) =
      handle_ready_sound inet_addr u malloc now ifaces (map (λ i. i.fd) ifaces) rs t
        (fds-Known (λ (i : Iface). i.fd) ifaces) f.0 w in
    let (t₂, sent₂, e₂, s₂) = nat_ustack_run_sound inet_addr malloc ifaces polls t₁ u f.1 s₁.0 in
    (t₂, sent₁ ++ sent₂, rw (e₁, e₂), (s₂.0, All-append IsValidAction sent₁ sent₂ s₁.1 s₂.1))
