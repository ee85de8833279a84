-- ===== src/Tests/HashedNat.antt =====
-- The theorems on nat_new_2.c at one flow.
use net_working_mini_net.Base.{◌≡◌, ◌≢◌, refl, some, List, [], arith, htons, htonl}
use net_working_mini_net.Packet.{saddr, daddr, protocol, sport, dport}
use net_working_mini_net.NatStack.{Table, Action, dir_in, dir_out}
use net_working_mini_net.NatStack.Ports.{scan_ports, assign_external_port_incl}
use net_working_mini_net.NatStack.Hashed.{
  nat_lookup_internal, nat_insert_mapping, found_or_inserted, do_translation, nat_translate_packet,
  translate_packet, get_packet_direction, nat_timeout,
}
use net_working_mini_net.NatStack.Hashed.Idle.{AllQuiet}
use net_working_mini_net.NatStack.Hashed.Idle.Runs.{
  Reach, here, next, packet_in, wait, Reach-nat_timeout,
}
use net_working_mini_net.NatStack.Hashed.Twins.{WellFormed}
use net_working_mini_net.NatStack.Hashed.Twins.RoundTrip.{
  Sends, source_mapping, sent_table, do_translation_leaves, do_translation_reply,
}
use net_working_mini_net.Tests.Frames.{
  segment, reply_segment, segment-IsBytes, reply_segment-IsBytes, segment-long, reply_segment-long,
  one_address, one_address-lt, no_flows,
}

no_flows-WellFormed_hashed : WellFormed no_flows
no_flows-WellFormed_hashed = record { stored = λ i. tt; twins = λ i. tt }

assigned_first : (source_mapping 7 1 2 no_flows segment).0.external_port ≡ htons 12345
unfolding found_or_inserted nat_insert_mapping assign_external_port_incl scan_ports
    nat_lookup_internal
assigned_first = refl

has_port : (source_mapping 7 1 2 no_flows segment).0.external_port ≢ 0
unfolding htons
has_port = rw assigned_first (omega arith)

to_port : dport reply_segment ≡ (source_mapping 7 1 2 no_flows segment).0.external_port
unfolding dport htons
to_port = rw assigned_first refl

do_translation_leaves_example :
    (sent : List Action) × (do_translation one_address 7 1 2 no_flows segment 54 dir_out
      ≡ some (sent_table 7 1 2 no_flows segment, sent))
    × Sends sent 54
        (one_address [])
        (source_mapping 7 1 2 no_flows segment).0.external_port
        (daddr segment)
        (dport segment)
    × WellFormed (sent_table 7 1 2 no_flows segment)
do_translation_leaves_example =
    do_translation_leaves one_address one_address-lt 7 1 2 no_flows no_flows-WellFormed_hashed
      segment 54 segment-IsBytes segment-long

do_translation_reply_example :
    (t' : Table) × (sent : List Action) × (do_translation one_address 9 1 2
        (sent_table 7 1 2 no_flows segment)
        reply_segment
        54
        dir_in
      ≡ some (t', sent))
    × Sends sent 54 (saddr reply_segment) (sport reply_segment) (saddr segment) (sport segment)
    × WellFormed t'
do_translation_reply_example =
    do_translation_reply one_address one_address-lt 7 1 2 9 no_flows segment reply_segment 54
      no_flows-WellFormed_hashed segment-IsBytes segment-long reply_segment-IsBytes
      reply_segment-long has_port to_port

one_sent :
    (sent : List Action) × (nat_translate_packet one_address 7 1 2 no_flows segment 54
      ≡ some (sent_table 7 1 2 no_flows segment, sent))
unfolding nat_translate_packet translate_packet get_packet_direction do_translation htonl daddr
    protocol
one_sent =
    let (sent, e, _, _) =
      do_translation_leaves one_address one_address-lt 7 1 2 no_flows no_flows-WellFormed_hashed
        segment 54 segment-IsBytes segment-long in
    (sent, e)

-- A packet at 7, and nothing more up to 100.
run : Reach one_address (7, no_flows) (100, sent_table 7 1 2 no_flows segment)
run =
    next
      (next here (
        packet_in 7 1 2 no_flows segment 54 (sent_table 7 1 2 no_flows segment) one_sent.0
          one_sent.1))
      (wait 7 100 (sent_table 7 1 2 no_flows segment) (omega arith))

no_flows-AllQuiet : AllQuiet 7 no_flows
no_flows-AllQuiet i = tt

Reach-nat_timeout_example :
    nat_timeout 100 (sent_table 7 1 2 no_flows segment) ≡ sent_table 7 1 2 no_flows segment
Reach-nat_timeout_example =
    Reach-nat_timeout one_address (7, no_flows) (100, sent_table 7 1 2 no_flows segment) run
      no_flows-AllQuiet
