-- ===== src/NatStack/Linear/RoundTrip.antt =====
-- A flow through nat.c and its replies.
use net_working_mini_net.Base.{
  ℕ, ◌^◌, ◌≤◌, ◌<◌, ◌≡◌, ◌≢◌, sym, ◌∙◌, some, List, arith, find, find-passes,
}
use net_working_mini_net.Packet.{Bytes, ip_hdr_size, saddr, daddr, sport, dport}
use net_working_mini_net.Packet.Fields.{IsBytes}
use net_working_mini_net.NatStack.{Mapping, Table, dir_in, dir_out, has_internal, has_external_port}
use net_working_mini_net.NatStack.Linear.{nat_get_mapping_from_packet, do_translation}
use net_working_mini_net.NatStack.Linear.Invariant.{
  mappings, no_port, WellFormed, search_external-find, search_internal-find, find_by_port,
}
use net_working_mini_net.NatStack.Linear.Translate.{Sends, do_translation_out, do_translation_in}

internal_search :
    (t : Table) (p : Bytes)
    → nat_get_mapping_from_packet t p dir_out ≡ find (has_internal (saddr p) (sport p)) (mappings t)
unfolding nat_get_mapping_from_packet
internal_search t p = search_internal-find t (saddr p) (sport p)

external_search :
    (t : Table) (p : Bytes)
    → nat_get_mapping_from_packet t p dir_in ≡ find (has_external_port (dport p)) (mappings t)
unfolding nat_get_mapping_from_packet
external_search t p = search_external-find t (dport p)

-- If the addresses of `inet_addr` have 32 bits, the table of nat.c is well-formed, both packets are
-- made of bytes with legal IP header lengths, the outgoing packet has a mapping with an assigned
-- port, and the reply goes to that port, then the packet leaves with the external address and that
-- port as its source, the reply is led to the packet's source and keeps its own, and the table
-- stays.
pub do_translation_round_trip :
    (inet_addr : List ℕ → ℕ) (now addr later addr' : ℕ) (t : Table) (p r : Bytes) (len len' : ℕ)
    (m : Mapping)
    → ((s : List ℕ) → inet_addr s < 2 ^ 32)
    → WellFormed t
    → IsBytes p
    → IsBytes r
    → 20 ≤ ip_hdr_size p
    → 20 ≤ ip_hdr_size r
    → nat_get_mapping_from_packet t p dir_out ≡ some m
    → m.external_port ≢ no_port
    → dport r ≡ m.external_port
    → Sends
        (do_translation inet_addr now addr t p len dir_out)
        t
        len
        (inet_addr t.external_iface.ip_str)
        (dport r)
        (daddr p)
        (dport p)
      × Sends
          (do_translation inet_addr later addr' t r len' dir_in)
          t
          len'
          (saddr r)
          (sport r)
          (saddr p)
          (sport p)
do_translation_round_trip inet_addr now addr later addr' t p r len len' m is_u32 w bp br lp lr e ne
      to =
    let found = sym (internal_search t p) ∙ e in
    let by_port =
      find_by_port (has_internal (saddr p) (sport p)) (mappings t) m w.unique found ne in
    let passes = find-passes (has_internal (saddr p) (sport p)) (mappings t) m found in
    let reply : nat_get_mapping_from_packet t r dir_in ≡ some m =
      external_search t r ∙ rw to by_port in
    let source : (m.internal_ip ≡ saddr p) × (m.internal_port ≡ sport p) =
      unfold has_internal in ground arith in
    (
      rw to (do_translation_out inet_addr is_u32 now addr t w p len bp lp m e),
      rw (← source.0, ← source.1)
          (do_translation_in inet_addr is_u32 later addr' t w r len' br lr m reply),
    )
