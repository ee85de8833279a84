-- ===== src/Tests/Exhausted.antt =====
-- The theorem on the exhausted pool of nat.c, at two flows.
use net_working_mini_net.Base.{◌≤◌, ◌≡◌, refl, none, ◌&&◌, false, if◌then◌else◌, ◌==◌, arith}
use net_working_mini_net.Packet.{Bytes, ip_hdr_size, saddr, daddr, sport, dport, tcp_hdr}
use net_working_mini_net.NatStack.{Table, dir_in, dir_out}
use net_working_mini_net.NatStack.Linear.{
  search_internal, search_external, nat_lookup_internal, nat_lookup_external,
  nat_get_mapping_from_packet, do_translation,
}
use net_working_mini_net.NatStack.Linear.Exhausted.{AllTaken, do_translation_exhausted}
use net_working_mini_net.Tests.Frames.{
  segment, segment-IsBytes, segment-long, one_address, one_address-lt, no_flows,
}
use net_working_mini_net.NatStack.Linear.Invariant.{WellFormed}
use net_working_mini_net.NatStack.Linear.Init.{no_mappings-WellFormed, entries-nil}
use net_working_mini_net.NatStack.Linear.Translate.{Sends}
use net_working_mini_net.Packet.Fields.{IsBytes}

-- The same host on another port, and a reply to the port 65535.
abbrev other_segment : Bytes
other_segment k = if k == 34 then 35 else segment k

abbrev stray_reply : Bytes
stray_reply k = if k == 36 then 255 else if k == 37 then 255 else segment k

abbrev full : Table
full = record no_flows { assigned_ports = λ k. 1 }

taken : AllTaken full.assigned_ports
taken k lo hi e = omega arith

abbrev after_one : Table
after_one = (do_translation one_address 7 1 full segment 54 dir_out).0

abbrev after_two : Table
after_two = (do_translation one_address 8 2 after_one other_segment 54 dir_out).0

unknown : (p : Bytes) → nat_get_mapping_from_packet full p dir_out ≡ none
unfolding nat_get_mapping_from_packet search_internal nat_lookup_internal
unknown p = refl

unassigned : nat_get_mapping_from_packet full stray_reply dir_in ≡ none
unfolding nat_get_mapping_from_packet search_external nat_lookup_external
unassigned = refl

different : (saddr segment == saddr other_segment && sport segment == sport other_segment) ≡ false
unfolding saddr sport tcp_hdr
different = refl

to_65535 : dport stray_reply ≡ 65535
unfolding dport tcp_hdr
to_65535 = refl

full-WellFormed : WellFormed full
full-WellFormed = no_mappings-WellFormed full (entries-nil 256 0)

other-IsBytes : IsBytes other_segment
other-IsBytes k = ground (arith, segment-IsBytes k)

stray-IsBytes : IsBytes stray_reply
stray-IsBytes k = ground (arith, segment-IsBytes k)

other-long : 20 ≤ ip_hdr_size other_segment
unfolding ip_hdr_size
other-long = omega arith

stray-long : 20 ≤ ip_hdr_size stray_reply
unfolding ip_hdr_size
stray-long = omega arith

do_translation_exhausted_example :
    Sends
      (do_translation one_address 9 3 after_two other_segment 54 dir_out)
      after_two
      54
      (one_address full.external_iface.ip_str)
      65535
      (daddr other_segment)
      (dport other_segment)
    × Sends
        (do_translation one_address 9 3 after_two stray_reply 54 dir_in)
        after_two
        54
        (saddr stray_reply)
        (sport stray_reply)
        (saddr segment)
        (sport segment)
    × (after_two.assigned_ports ≡ full.assigned_ports)
do_translation_exhausted_example =
    do_translation_exhausted one_address 7 1 8 2 9 3 full segment other_segment stray_reply 54 54 54
      one_address-lt full-WellFormed (segment-IsBytes, segment-long) (other-IsBytes, other-long)
      (stray-IsBytes, stray-long) taken (unknown segment) (unknown other_segment) different
      unassigned to_65535
