-- ===== src/NatStack/Linear/Actions.antt =====
-- What `nat_translate_packet` of nat.c hands to `ip_send_packet`.
use net_working_mini_net.Base.{
  ℕ, ◌≤◌, ◌≡◌, refl, inl, inr, none, some, List, ◌==◌, All, Bool-cases, Option,
}
use net_working_mini_net.Packet.{Bytes, ip_hdr, ip_hdr_size, tcp_hdr, protocol, ipproto_tcp}
use net_working_mini_net.Packet.Fields.{IsBytes}
use net_working_mini_net.Packet.Checksum.{checksum}
use net_working_mini_net.NatStack.{
  Mapping, Table, Dir, dir_in, dir_out, dir_invalid, Action, ip_send_packet, icmp_send_packet,
  handle_arp_packet, free,
}
use net_working_mini_net.NatStack.Rewrite.Endpoints.{
  rewrite_source_size, rewrite_destination_size, rewrite_source-IsBytes,
  rewrite_destination-IsBytes, tcp_hdr-le,
}
use net_working_mini_net.NatStack.Rewrite.Sums.{finish-verifies}
use net_working_mini_net.NatStack.Linear.{
  nat_get_mapping_from_packet, translate, do_translation, translate_packet, nat_translate_packet,
  get_packet_direction,
}

-- A packet handed to `ip_send_packet` has a valid IP checksum; other calls are not concerned.
abbrev pub IsValidAction : Action → Type 0
IsValidAction (ip_send_packet q len) = checksum q ip_hdr (ip_hdr_size q) 0 ≡ 0
IsValidAction (icmp_send_packet q len type code) = Unit {0}
IsValidAction (handle_arp_packet iface q len) = Unit {0}
IsValidAction (free q) = Unit {0}

module _ (inet_addr : List ℕ → ℕ) (now addr : ℕ) (t : Table) (p : Bytes) (len : ℕ)
    (bytes : IsBytes p) (long : 20 ≤ ip_hdr_size p) where
  translate-IsBytes :
      (dir : Dir) (o : Option Mapping)
      → IsBytes (translate inet_addr now addr t p (tcp_hdr p) dir o).1
  unfolding translate
  translate-IsBytes dir_in (some m) = rewrite_destination-IsBytes p (tcp_hdr p) m bytes
  translate-IsBytes dir_out (some m) = rewrite_source-IsBytes p (tcp_hdr p) _ m bytes
  translate-IsBytes dir_invalid (some m) = rewrite_source-IsBytes p (tcp_hdr p) _ m bytes
  translate-IsBytes dir_in none = bytes
  translate-IsBytes dir_out none = bytes
  translate-IsBytes dir_invalid none = bytes

  translate-size :
      (dir : Dir) (o : Option Mapping)
      → ip_hdr_size (translate inet_addr now addr t p (tcp_hdr p) dir o).1 ≡ ip_hdr_size p
  unfolding translate
  translate-size dir_in (some m) = rewrite_destination_size p (tcp_hdr p) m (tcp_hdr-le p long)
  translate-size dir_out (some m) = rewrite_source_size p (tcp_hdr p) m _ (tcp_hdr-le p long)
  translate-size dir_invalid (some m) = rewrite_source_size p (tcp_hdr p) m _ (tcp_hdr-le p long)
  translate-size dir_in none = refl
  translate-size dir_out none = refl
  translate-size dir_invalid none = refl

  do_translation-IsValidAction :
      (dir : Dir) → All IsValidAction (do_translation inet_addr now addr t p len dir).1
  unfolding do_translation
  do_translation-IsValidAction dir =
      let o = nat_get_mapping_from_packet t p dir in
      let q = (translate inet_addr now addr t p (tcp_hdr p) dir o).1 in
      (finish-verifies p q (translate-IsBytes dir o) long (translate-size dir o), tt)

  translate_packet-IsValidAction :
      (dir : Dir) → All IsValidAction (translate_packet inet_addr now addr t p len dir).1
  unfolding translate_packet
  translate_packet-IsValidAction dir_invalid = (tt, (tt, tt))
  translate_packet-IsValidAction dir_in = elim (Bool-cases (protocol p == ipproto_tcp)) [
    | inl e ↦ rw e (do_translation-IsValidAction dir_in)
    | inr e ↦ rw e (tt, tt)
  ]
  translate_packet-IsValidAction dir_out = elim (Bool-cases (protocol p == ipproto_tcp)) [
    | inl e ↦ rw e (do_translation-IsValidAction dir_out)
    | inr e ↦ rw e (tt, tt)
  ]

  -- For a packet made of bytes with a legal IP header length, each packet that
  -- `nat_translate_packet` of nat.c hands to `ip_send_packet` has a valid IP checksum, on every
  -- branch.
  pub nat_translate_packet-IsValidAction :
      All IsValidAction (nat_translate_packet inet_addr now addr t p len).1
  unfolding nat_translate_packet
  nat_translate_packet-IsValidAction =
      translate_packet-IsValidAction (get_packet_direction inet_addr t p)
