-- ===== src/Tests/Nat.antt =====
-- The NAT's theorems at one flow.
use net_working_mini_net.Base.{
  ◌⊎◌, ℕ, ◌≤◌, ◌≡◌, ◌≢◌, refl, ◌∙◌, none, some, List, [], ◌∷◌, htons, arith, All, suc, length, ap,
  keep, not, ◌==◌, if◌then◌else◌,
}
use net_working_mini_net.Buckets.{entries}
use net_working_mini_net.Packet.{saddr, daddr, sport, dport}
use net_working_mini_net.Switch.Main.{Poll, ready, frame, nothing}
use net_working_mini_net.NatStack.{Mapping, Table, dir_in, dir_out, zero_connection, is_expired}
use net_working_mini_net.NatStack.Ports.{scan_ports, assign_external_port}
use net_working_mini_net.NatStack.Ports.Assign.{Assigned, assign_external_port-Assigned}
use net_working_mini_net.NatStack.Linear.{
  search_internal, nat_lookup_internal, nat_get_mapping_from_packet, do_translation,
  nat_translate_packet, nat_insert_mapping, nat_timeout,
}
use net_working_mini_net.NatStack.Linear.Invariant.{WellFormed, mappings, no_port}
use net_working_mini_net.NatStack.Expiry.Lists.{free_all}
use net_working_mini_net.NatStack.Linear.Timeout.{nat_timeout_lem, nat_timeout-never}
use net_working_mini_net.NatStack.Linear.Actions.{IsValidAction, nat_translate_packet-IsValidAction}
use net_working_mini_net.NatStack.Linear.Translate.{
  Sends, do_translation-WellFormed, do_translation_first, do_translation_unmapped,
}
use net_working_mini_net.NatStack.Linear.Exhausted.{AllTaken}
use net_working_mini_net.NatStack.Linear.Portless.{without_ports, nat_translate_packet_ports}
use net_working_mini_net.NatStack.Linear.RoundTrip.{do_translation_round_trip}
use net_working_mini_net.Tests.Frames.{
  segment, reply_segment, segment-IsBytes, reply_segment-IsBytes, segment-long, reply_segment-long,
  one_address, one_address-lt, no_flows, no_flows-WellFormed,
}

abbrev rounds : List Poll
rounds = ready 7 (some (frame segment 54) ∷ none ∷ []) ∷ nothing ∷ []

no_mapping : nat_get_mapping_from_packet no_flows segment dir_out ≡ none
unfolding nat_get_mapping_from_packet search_internal nat_lookup_internal
no_mapping = refl

first_port : (assign_external_port (λ k. 0)).0 ≡ 12345
unfolding assign_external_port scan_ports
first_port = refl

do_translation_first_example :
    (m : Mapping) × (nat_get_mapping_from_packet
        (do_translation one_address 7 1 no_flows segment 54 dir_out).0
        segment
        dir_out
      ≡ some m)
    × (m.internal_ip ≡ saddr segment)
    × (m.internal_port ≡ sport segment)
    × (m.external_port ≡ htons (assign_external_port (λ k. 0)).0)
do_translation_first_example =
    do_translation_first one_address one_address-lt 7 1 no_flows no_flows-WellFormed segment 54
      segment-IsBytes segment-long no_mapping

first_flow :
    (m : Mapping) × (nat_get_mapping_from_packet
        (do_translation one_address 7 1 no_flows segment 54 dir_out).0
        segment
        dir_out
      ≡ some m)
    × (m.internal_ip ≡ saddr segment)
    × (m.internal_port ≡ sport segment)
    × (m.external_port ≡ htons (assign_external_port (λ k. 0)).0)
first_flow =
    do_translation_first one_address one_address-lt 7 1 no_flows no_flows-WellFormed segment 54
      segment-IsBytes segment-long no_mapping

do_translation_unmapped_example :
    Sends
      (do_translation one_address 7 1 no_flows segment 54 dir_out)
      (nat_insert_mapping one_address 7 1 no_flows 0 (saddr segment) (sport segment)).1
      54
      (saddr segment)
      (sport segment)
      (daddr segment)
      (dport segment)
    × (length (mappings (do_translation one_address 7 1 no_flows segment 54 dir_out).0)
        ≡ suc (length (mappings no_flows)))
do_translation_unmapped_example =
    do_translation_unmapped one_address one_address-lt 7 1 no_flows no_flows-WellFormed segment 54
      segment-IsBytes segment-long dir_out no_mapping

nat_translate_packet_ports_example :
    WellFormed (nat_translate_packet one_address 7 1 no_flows segment 54).0
    × (AllTaken no_flows.assigned_ports
        ⊎ (without_ports (nat_translate_packet one_address 7 1 no_flows segment 54).0
            ≡ without_ports no_flows))
nat_translate_packet_ports_example =
    nat_translate_packet_ports one_address 7 1 no_flows segment 54 one_address-lt
      no_flows-WellFormed segment-IsBytes segment-long

nat_translate_packet-IsValidAction_example :
    All IsValidAction (nat_translate_packet one_address 7 1 no_flows segment 54).1
nat_translate_packet-IsValidAction_example =
    nat_translate_packet-IsValidAction one_address 7 1 no_flows segment 54 segment-IsBytes
      segment-long

-- The table after the first packet of the flow, and the flow's mapping.
abbrev one_flow : Table
one_flow = (do_translation one_address 7 1 no_flows segment 54 dir_out).0

one_flow-WellFormed : WellFormed one_flow
one_flow-WellFormed =
    do_translation-WellFormed one_address one_address-lt 7 1 no_flows no_flows-WellFormed segment 54
      segment-IsBytes segment-long dir_out

abbrev flow : Mapping
flow = first_flow.0

flow_port : flow.external_port ≡ 0x3930
flow_port = first_flow.4 ∙ ap htons first_port ∙ unfold htons in refl

flow-has_port : flow.external_port ≢ no_port
flow-has_port = let e = flow_port in omega arith

reply-port : dport reply_segment ≡ flow.external_port
unfolding dport
reply-port = let e = flow_port in omega arith

do_translation_round_trip_example :
    Sends
      (do_translation one_address 8 2 one_flow segment 54 dir_out)
      one_flow
      54
      (one_address [])
      (dport reply_segment)
      (daddr segment)
      (dport segment)
    × Sends
        (do_translation one_address 9 3 one_flow reply_segment 54 dir_in)
        one_flow
        54
        (saddr reply_segment)
        (sport reply_segment)
        (saddr segment)
        (sport segment)
do_translation_round_trip_example =
    do_translation_round_trip one_address 8 2 9 3 one_flow segment reply_segment 54 54 flow
      one_address-lt one_flow-WellFormed segment-IsBytes reply_segment-IsBytes segment-long
      reply_segment-long first_flow.1 flow-has_port reply-port

-- A mapping with the port 12345 and the given time.
abbrev updated_at : ℕ → Mapping
updated_at time = record {
  addr = 1;
  internal_ip = 2;
  external_ip = 3;
  internal_port = 4;
  external_port = 0x3930;
  update_time = time;
  conn = zero_connection;
}

-- A table with one mapping, in list 0.
abbrev holding : Mapping → Table
holding m = record no_flows { nat_mapping_list = λ i. if i == 0 then m ∷ [] else [] }

nat_timeout_lem_example :
    (mappings (nat_timeout 10 (holding (updated_at 70)))
      ≡ keep (λ m. not (is_expired 10 m)) (mappings (holding (updated_at 70))))
    × ((nat_timeout 10 (holding (updated_at 70))).assigned_ports
        ≡ free_all (λ k. 0) (keep (is_expired 10) (mappings (holding (updated_at 70)))))
nat_timeout_lem_example = nat_timeout_lem 10 (holding (updated_at 70))

one_mapping : mappings (holding (updated_at 10)) ≡ updated_at 10 ∷ []
unfolding entries
one_mapping = refl

not_in_future : All (λ m. m.update_time ≤ 1000) (mappings (holding (updated_at 10)))
not_in_future = rw one_mapping (omega arith, tt)

nat_timeout-never_example :
    (mappings (nat_timeout 1000 (holding (updated_at 10))) ≡ mappings (holding (updated_at 10)))
    × ((nat_timeout 1000 (holding (updated_at 10))).assigned_ports ≡ (λ k. 0))
nat_timeout-never_example = nat_timeout-never 1000 (holding (updated_at 10)) not_in_future

assign_external_port-Assigned_example :
    Assigned (λ k. 0) 12345 23456 65535 (assign_external_port (λ k. 0))
assign_external_port-Assigned_example = assign_external_port-Assigned (λ k. 0)
