-- ===== src/Tests/Switching.antt =====
-- The theorems on the switch at two ports.
use net_working_mini_net.Base.{
  ℕ, ◌≤◌, ◌≡◌, refl, not, none, some, List, [], ◌∷◌, ◌==◌, if◌then◌else◌, find, keep, map, length,
  or_else, arith,
}
use net_working_mini_net.Buckets.{first_in, entries}
use net_working_mini_net.Buckets.DropFirst.{drop_first}
use net_working_mini_net.Packet.{Bytes}
use net_working_mini_net.Switch.{Iface, MacPortEntry, MacPortMap, eq_bytes, iface_send_packet}
use net_working_mini_net.Switch.Mac.{
  lookup_port, is_aged, sweep_aged_mac_port_entry, sweeping_mac_port_thread,
}
use net_working_mini_net.Switch.Mac.Lookup.{IsUnique}
use net_working_mini_net.Switch.Mac.Aging.{
  WithinWindow, answer, sweep_aged_mac_port_entry_lem, sweeping_mac_port_thread-clears,
}
use net_working_mini_net.Switch.Main.{ether_dhost, ether_shost, handle_packet}
use net_working_mini_net.Switch.Main.Forward.{
  handle_packet-learns, handle_packet-floods, handle_packet_reply,
}
use net_working_mini_net.Switch.Main.Run.{here, next, packet_in, sweep, Reach-IsUnique}

abbrev left_port : Iface
left_port = record { fd = 3; index = 1; mac = []; name = [] }

abbrev right_port : Iface
right_port = record { fd = 4; index = 2; mac = []; name = [] }

abbrev ports : List Iface
ports = left_port ∷ right_port ∷ []

-- A frame from the address 6, 7, ..., 11 to 0, 1, ..., 5, and its reply.
abbrev request : Bytes
request k = k

abbrev reply : Bytes
reply k =
    if k == 0
    then 6
    else if k == 1
    then 7
    else if k == 2
    then 8
    else if k == 3
    then 9
    else if k == 4
    then 10
    else if k == 5
    then 11
    else 20

abbrev empty : MacPortMap
empty i = []

empty-IsUnique : IsUnique empty
unfolding entries
empty-IsUnique = tt

unknown : (mac : List ℕ) → lookup_port empty mac ≡ none
unfolding lookup_port first_in
unknown mac = refl

-- An entry made at the time 0.
abbrev entry : MacPortEntry
entry = record { mac = 1 ∷ 2 ∷ 3 ∷ 4 ∷ 5 ∷ 6 ∷ []; iface = right_port; visited = 0 }

abbrev one_entry : MacPortMap
one_entry i = if i == 0 then entry ∷ [] else []

Reach-IsUnique_example :
    IsUnique (sweep_aged_mac_port_entry 40 (handle_packet 5 ports empty left_port request 60).0).1
Reach-IsUnique_example =
    Reach-IsUnique {ifaces = ports}
      (next (next here (packet_in 5 empty left_port request 60))
        (sweep 40 (handle_packet 5 ports empty left_port request 60).0))
      empty-IsUnique

reply_to : ether_dhost reply ≡ ether_shost request
unfolding ether_dhost ether_shost
reply_to = refl

handle_packet_reply_example :
    (handle_packet 6 ports
      (handle_packet 5 ports empty left_port request 60).0
      right_port
      reply
      60).1
    ≡ iface_send_packet left_port reply 60 ∷ []
handle_packet_reply_example =
    handle_packet_reply 5 6 ports empty left_port right_port request reply 60 60
      (unknown (ether_shost request)) reply_to

handle_packet-learns_example :
    lookup_port (handle_packet 5 ports empty left_port request 60).0 (6 ∷ [])
    ≡ or_else
        (lookup_port empty (6 ∷ []))
        (if eq_bytes (ether_shost request) (6 ∷ []) then some left_port else none)
handle_packet-learns_example = handle_packet-learns 5 ports empty left_port request 60 (6 ∷ [])

handle_packet-floods_example :
    (handle_packet 5 ports empty left_port request 60).1
    ≡ map (λ i. iface_send_packet i request 60) (keep (λ i. not (i.index == left_port.index)) ports)
handle_packet-floods_example =
    handle_packet-floods 5 ports empty left_port request 60 (unknown (ether_dhost request))

sweep_aged_mac_port_entry_lem_example :
    ((sweep_aged_mac_port_entry 30 one_entry).0
      ≡ answer (find (is_aged 30) (entries 256 0 one_entry)))
    × (entries 256 0 (sweep_aged_mac_port_entry 30 one_entry).1
        ≡ drop_first (is_aged 30) (entries 256 0 one_entry))
sweep_aged_mac_port_entry_lem_example = sweep_aged_mac_port_entry_lem 30 one_entry

-- A round at 31 and one at 33 on an entry that is aged at 30.
two_rounds : WithinWindow 30 (31 ∷ 33 ∷ []) one_entry
unfolding entries
two_rounds = (
  record {
    visited = omega arith;
    rounds = ((omega arith, omega arith), ((omega arith, omega arith), tt));
  },
  tt,
)

two_are_enough : length (entries 256 0 one_entry) ≤ length {A = ℕ} (31 ∷ 33 ∷ [])
unfolding entries
two_are_enough = omega arith

sweeping_mac_port_thread-clears_example :
    find (is_aged 30) (entries 256 0 (sweeping_mac_port_thread (31 ∷ 33 ∷ []) one_entry)) ≡ none
sweeping_mac_port_thread-clears_example =
    sweeping_mac_port_thread-clears 30 (31 ∷ 33 ∷ []) one_entry two_rounds two_are_enough
