-- ===== src/NatStack/Hashed/Store.antt =====
-- nat_stack/nat_new_2.c on the memory itself: the mappings are nodes of 256 circular lists of list.h, and
-- the handlers get pointers to them. The addresses of the list heads are a parameter, and so are the two
-- addresses that `malloc` gives for an insertion.
pub mod Holds
pub mod Touch
pub mod Insert
pub mod Packets
pub mod Delete
pub mod Events
pub mod Runs
use mathlib.Core.Option
use net_working_mini_net.Base.{
  ℕ, ◌==◌, Bool, true, Option, none, some, List, [], ◌∷◌, if◌then◌else◌, htons, htonl,
}
use net_working_mini_net.Hash.{hash_8bits}
use net_working_mini_net.ListHead.{Ptr, init_list_head}
use net_working_mini_net.Rings
use net_working_mini_net.Rings.{init_heads, set_entry, add_node, search_list, delete_lists}
use net_working_mini_net.Packet.{
  Bytes, tcp_hdr, saddr, daddr, sport, dport, protocol, ipproto_tcp, icmp_dest_unreach,
  icmp_host_unreach,
}
use net_working_mini_net.NatStack.Rewrite.{update_checksums, rewrite_destination, rewrite_source}
use net_working_mini_net.NatStack.{
  Iface, Dir, dir_in, dir_out, dir_invalid, zero_connection, Mapping, Memory, Table, Action,
  ip_send_packet, icmp_send_packet, free, if_name_to_iface, has_external_port, has_internal,
}
use net_working_mini_net.NatStack.Ports.{assign_external_port_incl}
use net_working_mini_net.NatStack.Expiry.{timeout_from}
use net_working_mini_net.NatStack.Linear.{
  InitResult, ready, exit_failure, internal_name, external_name,
}
use net_working_mini_net.NatStack.Hashed.{bucket, is_over}

-- `init_list_head` on a new node, its fields, and `list_add_tail`.
unfoldable pub add_mapping : (head n : Ptr) → Mapping → Rings.Store Mapping → Rings.Store Mapping
unfolding add_node
add_mapping head n e s = add_node head n e (record s { links = init_list_head s.links n })

-- `time(&mapping_entry->update_time)` through the pointer.
unfoldable pub set_time : (now : ℕ) (a : Ptr) → Memory → Memory
unfolding set_entry
set_time now a m = record m {
  store = set_entry m.store a (record (m.store.entry a) { update_time = now });
}

-- The fields of a new mapping at the address `n`.
unfoldable pub new_mapping :
    Iface → (now : ℕ) (n : Ptr) → (internal_ip internal_port port : ℕ) → Mapping
new_mapping external now n internal_ip internal_port port = record {
  addr = n;
  internal_ip = internal_ip;
  external_ip = external.ip;
  internal_port = internal_port;
  external_port = port;
  update_time = now;
  conn = zero_connection;
}

module _ (heads : ℕ → Ptr) where
  -- The tests on the two interfaces, behind the initialisation of the lists.
  unfoldable pub memory_of_ifaces :
      Rings.Store Mapping → (internal external : Option Iface) → InitResult Memory
  memory_of_ifaces s none _ = exit_failure
  memory_of_ifaces s (some _) none = exit_failure
  memory_of_ifaces s (some internal) (some external) = ready (record {
    store = s;
    internal_iface = internal;
    external_iface = external;
    assigned_ports = λ k. 0;
  })

  unfoldable pub nat_table_init_at : Rings.Store Mapping → List Iface → InitResult Memory
  unfolding memory_of_ifaces init_heads
  nat_table_init_at s ifaces =
      memory_of_ifaces (record s { links = init_heads heads hash_8bits 0 s.links })
        (if_name_to_iface ifaces internal_name) (if_name_to_iface ifaces external_name)

  -- The time stands in the first entry from the start here; the source sets it at the end, and nothing
  -- reads it in between.
  unfoldable pub nat_insert_mapping_at :
      (now : ℕ) (n n' : Ptr) → Memory → (internal_ip internal_port : ℕ) → Memory
  unfolding add_mapping new_mapping
  nat_insert_mapping_at now n n' m internal_ip internal_port =
      let (port, pool) = assign_external_port_incl m.assigned_ports in
      let e = new_mapping m.external_iface now n internal_ip internal_port (htons port) in
      let twin = new_mapping m.external_iface 0 n' internal_ip internal_port e.external_port in
      let s = add_mapping (heads (bucket internal_ip internal_port)) n e m.store in
      record m {
        store = add_mapping (heads (bucket twin.external_ip twin.external_port)) n' twin s;
        assigned_ports = pool;
      }

  unfoldable pub found_or_inserted_at :
      Option Ptr → (now : ℕ) (n n' : Ptr) → Memory → (internal_ip internal_port : ℕ) → Ptr × Memory
  unfolding nat_insert_mapping_at
  found_or_inserted_at (some a) now n n' m internal_ip internal_port = (a, m)
  found_or_inserted_at none now n n' m internal_ip internal_port =
      (n, nat_insert_mapping_at now n n' m internal_ip internal_port)

  module _ (fuel : ℕ) where
    unfoldable pub nat_lookup_external_at : Memory → (external_port : ℕ) → Option Ptr
    unfolding search_list
    nat_lookup_external_at m external_port =
        search_list fuel m.store (λ n. has_external_port external_port (m.store.entry n))
          (heads (bucket m.external_iface.ip external_port))

    unfoldable pub nat_lookup_internal_at : Memory → (internal_ip internal_port : ℕ) → Option Ptr
    unfolding search_list
    nat_lookup_internal_at m internal_ip internal_port =
        search_list fuel m.store (λ n. has_internal internal_ip internal_port (m.store.entry n))
          (heads (bucket internal_ip internal_port))

    unfoldable pub nat_timeout_at : (now : ℕ) → Memory → Memory
    unfolding timeout_from
    nat_timeout_at now m = timeout_from (is_over now) heads fuel hash_8bits 0 m

    -- The loops; the SIGTERM behind them is left out.
    unfoldable pub nat_table_destroy_at : Memory → Memory
    unfolding delete_lists
    nat_table_destroy_at m = record m {
      store = record (m.store) {
        links = delete_lists heads fuel (λ n. true) hash_8bits 0 m.store.links;
      };
    }

-- The packet is rewritten by the entry behind the pointer, its time set, and the packet sent.
unfoldable pub translate_in_at : (now : ℕ) → Memory → Bytes → (len : ℕ) → Ptr → Memory × List Action
unfolding set_time
translate_in_at now m packet len a =
    let tcp = tcp_hdr packet in
    (
      set_time now a m,
      ip_send_packet (update_checksums (rewrite_destination packet tcp (m.store.entry a)) tcp) len
          ∷ [],
    )

unfoldable pub translate_out_at :
    (inet_addr : List ℕ → ℕ) (now : ℕ) → Memory → Bytes → (len : ℕ) → Ptr → Memory × List Action
unfolding set_time
translate_out_at inet_addr now m packet len a =
    let tcp = tcp_hdr packet in
    let nat_ip = inet_addr m.external_iface.ip_str in
    (
      set_time now a m,
      ip_send_packet (update_checksums (rewrite_source packet tcp nat_ip (m.store.entry a)) tcp) len
          ∷ [],
    )

unfoldable pub get_packet_direction_at : Memory → Bytes → Dir
get_packet_direction_at m packet =
    if htonl (daddr packet) == m.external_iface.ip then dir_in else dir_out

module _ (heads : ℕ → Ptr) (inet_addr : List ℕ → ℕ) (fuel now : ℕ) (n n' : Ptr) (m : Memory)
    (packet : Bytes) (len : ℕ) where
  -- The mapping of the source is found or inserted first.
  unfoldable pub translate_source_at : Memory × List Action
  unfolding translate_out_at found_or_inserted_at nat_lookup_internal_at
  translate_source_at =
      let (a, m') =
        found_or_inserted_at heads
          (nat_lookup_internal_at heads fuel m (saddr packet) (sport packet)) now n n' m
          (saddr packet) (sport packet) in
      translate_out_at inet_addr now m' packet len a

  unfoldable pub do_translation_at : Dir → Option (Memory × List Action)
  unfolding translate_in_at translate_source_at nat_lookup_external_at
  do_translation_at dir_in =
      Option.map (translate_in_at now m packet len)
        (nat_lookup_external_at heads fuel m (dport packet))
  do_translation_at dir_out = some translate_source_at
  do_translation_at dir_invalid = some translate_source_at

  unfoldable pub translate_packet_at : Dir → Option (Memory × List Action)
  unfolding do_translation_at
  translate_packet_at dir_invalid =
      some (m, icmp_send_packet packet len icmp_dest_unreach icmp_host_unreach ∷ free packet ∷ [])
  translate_packet_at dir_in =
      if protocol packet == ipproto_tcp
      then do_translation_at dir_in
      else some (m, free packet ∷ [])
  translate_packet_at dir_out =
      if protocol packet == ipproto_tcp
      then do_translation_at dir_out
      else some (m, free packet ∷ [])

  unfoldable pub nat_translate_packet_at : Option (Memory × List Action)
  unfolding translate_packet_at get_packet_direction_at
  nat_translate_packet_at = translate_packet_at (get_packet_direction_at m packet)
