-- ===== src/Tests/Stores.antt =====
-- The theorems on the mappings of the NAT in memory.
use mathlib.Core.Option
use net_working_mini_net.Base.{ℕ, ◌≤◌, ◌≡◌, refl, List, [], ◌∷◌, arith}
use net_working_mini_net.Hash.{hash_8bits}
use net_working_mini_net.ListHead.{Ptr}
use net_working_mini_net.ListHead.Walk.{list_for_each_entry_lem}
use net_working_mini_net.Rings
use net_working_mini_net.Rings.{init_heads}
use net_working_mini_net.Rings.Init.{init_heads-Stores}
use net_working_mini_net.Rings.Short.{IsUnused}
use net_working_mini_net.Rings.Stores.{Stores}
use net_working_mini_net.Packet.{Bytes}
use net_working_mini_net.Switch.{eq_bytes}
use net_working_mini_net.NatStack.{
  Dir, Iface, Mapping, Memory, Table, zero_connection, if_name_to_iface,
}
use net_working_mini_net.NatStack.Linear.{
  ready, internal_name, external_name, nat_table_init, nat_get_mapping_from_packet,
}
use net_working_mini_net.NatStack.Linear.Store.{
  memory_of_ifaces, nat_table_init_at, nat_get_mapping_from_packet_at,
}
use net_working_mini_net.NatStack.Linear.Store.Events.{
  Event, packet, timeout, destroy, handle_all, handle_all_at, AllUnused,
}
use net_working_mini_net.NatStack.Linear.Store.Runs.{handle_all_at_lem}
use net_working_mini_net.NatStack.Hashed
use net_working_mini_net.NatStack.Hashed.Start
use net_working_mini_net.NatStack.Hashed.Store
use net_working_mini_net.NatStack.Hashed.Store.Events
use net_working_mini_net.NatStack.Hashed.Store.Events.{outcome, outcome_at}
use net_working_mini_net.NatStack.Hashed.Store.Runs.{handle_all_at-handle_all}
use net_working_mini_net.Tests.Frames.{segment, one_address}

-- The head of the list `i` is at the address `i`.
abbrev heads : ℕ → Ptr
heads i = i

abbrev cleared : Rings.Store Mapping
cleared = record {
  links = record { next = λ a. 0; prev = λ a. 0 };
  entry = λ a. record {
    addr = 0;
    internal_ip = 0;
    external_ip = 0;
    internal_port = 0;
    external_port = 0;
    update_time = 0;
    conn = zero_connection;
  };
}

abbrev inner : Iface
inner = record { fd = 3; index = 1; mac = []; ip = 0; mask = 0; name = internal_name; ip_str = [] }

abbrev outer : Iface
outer = record { fd = 4; index = 2; mac = []; ip = 0; mask = 0; name = external_name; ip_str = [] }

abbrev memory : Memory
memory = record {
  store = record cleared { links = init_heads heads hash_8bits 0 cleared.links };
  internal_iface = inner;
  external_iface = outer;
  assigned_ports = λ k. 0;
}

starts : nat_table_init_at heads cleared (inner ∷ outer ∷ []) ≡ ready memory
unfolding nat_table_init_at memory_of_ifaces if_name_to_iface eq_bytes
starts = refl

cleared-Stores : Stores heads memory.store (λ i. []) (λ i. [])
cleared-Stores = init_heads-Stores heads (λ i j e. e) cleared

-- The lists of that memory are empty.
nowhere : (n : Ptr) → 256 ≤ n → IsUnused heads 7 memory.store n
nowhere n le i b =
    let nothing =
      list_for_each_entry_lem 7 memory.store.links i [] (cleared-Stores.ring i b) (omega arith) in
    rw nothing (ground arith)

-- A packet, a timeout and the destruction.
abbrev events : List Event
events = packet 7 1000 segment 54 ∷ timeout 100 ∷ destroy ∷ []

unused : AllUnused one_address heads 7 memory events
unused = (nowhere 1000 (omega arith), (tt, (tt, tt)))

handle_all_at_lem_example :
    (t : Table) × (nat_table_init (inner ∷ outer ∷ []) ≡ ready t)
    × ((handle_all_at one_address heads 7 memory events).1 ≡ (handle_all one_address t events).1)
    × ((handle_all_at one_address heads 7 memory events).0.assigned_ports
        ≡ (handle_all one_address t events).0.assigned_ports)
    × ((p : Bytes) (dir : Dir)
        → Option.map (handle_all_at one_address heads 7 memory events).0.store.entry (
            nat_get_mapping_from_packet_at heads 7
              (handle_all_at one_address heads 7 memory events).0
              p
              dir)
          ≡ nat_get_mapping_from_packet (handle_all one_address t events).0 p dir)
handle_all_at_lem_example =
    handle_all_at_lem heads (λ i j e. e) one_address 7 cleared (inner ∷ outer ∷ []) memory events
      starts unused (omega arith)

-- The same for nat_new_2.c, whose packets may bring two nodes.
hashed_starts : Hashed.Store.nat_table_init_at heads cleared (inner ∷ outer ∷ []) ≡ ready memory
unfolding Hashed.Store.nat_table_init_at Hashed.Store.memory_of_ifaces if_name_to_iface eq_bytes
hashed_starts = refl

abbrev hashed_events : List Hashed.Store.Events.Event
hashed_events =
    Hashed.Store.Events.packet 7 1000 2000 segment 54
    ∷ Hashed.Store.Events.timeout 100
    ∷ Hashed.Store.Events.destroy
    ∷ []

hashed_unused : Hashed.Store.Events.AllUnused one_address heads 7 memory hashed_events
hashed_unused = (
  (nowhere 1000 (omega arith), nowhere 2000 (omega arith), λ e. absurd (omega arith)),
  λ r e. (tt, λ r' e'. (tt, λ r'' e''. tt)),
)

handle_all_at-handle_all_example :
    (t : Table) × (Hashed.Start.nat_table_init (inner ∷ outer ∷ []) ≡ ready t)
    × (Option.map outcome_at
          (Hashed.Store.Events.handle_all_at one_address heads 7 memory hashed_events)
        ≡ Option.map outcome (Hashed.Store.Events.handle_all one_address t hashed_events))
handle_all_at-handle_all_example =
    handle_all_at-handle_all heads one_address 7 cleared (inner ∷ outer ∷ []) memory hashed_events
      (λ i j e. e) hashed_starts hashed_unused (omega arith)
