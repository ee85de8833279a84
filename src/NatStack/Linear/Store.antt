-- ===== src/NatStack/Linear/Store.antt =====
-- nat_stack/nat.c on the memory itself: the mappings are nodes of 256 circular lists of list.h, and the
-- handlers get pointers to them. The addresses of the list heads are a parameter, and so is the address
-- `n` that `malloc` gives. The block that `nat_get_mapping_from_packet` allocates is left out: no list
-- and no handler ever gets it.
pub mod Holds
pub mod Events
pub mod Runs
use net_working_mini_net.Base.{
  ℕ, zero, suc, ◌==◌, Bool, true, Option, none, some, List, [], ◌∷◌, if◌then◌else◌, htons, htonl,
}
use net_working_mini_net.Hash.{hash_8bits}
use net_working_mini_net.ListHead.{Ptr, Links, list_delete_entry}
use net_working_mini_net.Rings
use net_working_mini_net.Rings.{init_heads, add_node, first_node, delete_lists}
use net_working_mini_net.Packet.{
  Bytes, tcp_hdr, saddr, daddr, sport, dport, protocol, ipproto_tcp, icmp_dest_unreach,
  icmp_host_unreach,
}
use net_working_mini_net.NatStack.Rewrite.{update_checksums, rewrite_destination, rewrite_source}
use net_working_mini_net.NatStack.{
  Iface, Dir, dir_in, dir_out, dir_invalid, zero_connection, Mapping, Memory, Action,
  ip_send_packet, icmp_send_packet, free, if_name_to_iface, has_external_port, has_internal,
  is_expired,
}
use net_working_mini_net.NatStack.Ports.{assign_external_port}
use net_working_mini_net.NatStack.Expiry.{timeout_from}
use net_working_mini_net.NatStack.Linear.{
  InitResult, ready, exit_failure, null_dereference, internal_name, external_name,
}

module _ (heads : ℕ → Ptr) where
  -- The tests on the two interfaces that were looked up, behind the initialisation of the lists.
  unfoldable pub memory_of_ifaces :
      Rings.Store Mapping → (internal external : Option Iface) → InitResult Memory
  memory_of_ifaces s _ none = null_dereference
  memory_of_ifaces s none (some _) = exit_failure
  memory_of_ifaces s (some internal) (some external) = ready (record {
    store = s;
    internal_iface = internal;
    external_iface = external;
    assigned_ports = λ k. 0;
  })

  unfoldable pub nat_table_init_at : Rings.Store Mapping → List Iface → InitResult Memory
  unfolding memory_of_ifaces init_heads
  nat_table_init_at s ifaces =
      memory_of_ifaces (record s { links = init_heads heads hash_8bits 0 s.links })
        (if_name_to_iface ifaces internal_name) (if_name_to_iface ifaces external_name)

  module _ (fuel : ℕ) where
    unfoldable pub nat_get_mapping_from_packet_at : Memory → Bytes → Dir → Option Ptr
    unfolding first_node
    nat_get_mapping_from_packet_at m packet dir_in =
        first_node heads fuel (λ n. has_external_port (dport packet) (m.store.entry n)) hash_8bits 0
          m.store
    nat_get_mapping_from_packet_at m packet dir_out =
        first_node heads fuel (λ n. has_internal (saddr packet) (sport packet) (m.store.entry n))
          hash_8bits 0 m.store
    nat_get_mapping_from_packet_at m packet dir_invalid =
        first_node heads fuel (λ n. has_internal (saddr packet) (sport packet) (m.store.entry n))
          hash_8bits 0 m.store

    unfoldable pub nat_timeout_at : (now : ℕ) → Memory → Memory
    unfolding timeout_from
    nat_timeout_at now m = timeout_from (is_expired now) heads fuel hash_8bits 0 m

    -- The loops; the SIGTERM behind them is left out.
    unfoldable pub nat_table_destroy_at : Memory → Memory
    unfolding delete_lists
    nat_table_destroy_at m = record m {
      store = record (m.store) {
        links = delete_lists heads fuel (λ n. true) hash_8bits 0 m.store.links;
      };
    }

  module _ (inet_addr : List ℕ → ℕ) where
    unfoldable pub nat_insert_mapping_at :
        (now : ℕ) (n : Ptr) → Memory → (k internal_ip internal_port : ℕ) → Memory
    unfolding add_node
    nat_insert_mapping_at now n m k internal_ip internal_port =
        let (port, pool) = assign_external_port m.assigned_ports in
        record m {
          store =
              add_node (heads k) n
                (record {
                  addr = n;
                  internal_ip = internal_ip;
                  external_ip = inet_addr m.external_iface.ip_str;
                  internal_port = internal_port;
                  external_port = htons port;
                  update_time = now;
                  conn = zero_connection;
                })
                m.store;
          assigned_ports = pool;
        }

    unfoldable pub get_packet_direction_at : Memory → Bytes → Dir
    get_packet_direction_at m packet =
        if htonl (daddr packet) == htonl (inet_addr m.external_iface.ip_str)
        then dir_in
        else dir_out

    -- The branches of `do_translation` on the direction and the pointer.
    unfoldable pub translate_at :
        (now : ℕ) (n : Ptr) → Memory → Bytes → (tcp : ℕ) → Dir → Option Ptr → Memory × Bytes
    unfolding nat_insert_mapping_at
    translate_at now n m packet tcp dir_in (some a) =
        (m, rewrite_destination packet tcp (m.store.entry a))
    translate_at now n m packet tcp dir_out (some a) =
        (m, rewrite_source packet tcp (inet_addr m.external_iface.ip_str) (m.store.entry a))
    translate_at now n m packet tcp dir_invalid (some a) =
        (m, rewrite_source packet tcp (inet_addr m.external_iface.ip_str) (m.store.entry a))
    translate_at now n m packet tcp dir_in none =
        (nat_insert_mapping_at now n m 0 (saddr packet) (sport packet), packet)
    translate_at now n m packet tcp dir_out none =
        (nat_insert_mapping_at now n m 0 (saddr packet) (sport packet), packet)
    translate_at now n m packet tcp dir_invalid none =
        (nat_insert_mapping_at now n m 0 (saddr packet) (sport packet), packet)

    module _ (fuel now : ℕ) (n : Ptr) (m : Memory) (packet : Bytes) (len : ℕ) where
      unfoldable pub do_translation_at : Dir → Memory × List Action
      unfolding translate_at nat_get_mapping_from_packet_at
      do_translation_at dir =
          let tcp = tcp_hdr packet in
          let (m', p) =
            translate_at now n m packet tcp dir
              (nat_get_mapping_from_packet_at fuel m packet dir) in
          (m', ip_send_packet (update_checksums p tcp) len ∷ [])

      unfoldable pub translate_packet_at : Dir → Memory × List Action
      unfolding do_translation_at
      translate_packet_at dir_invalid =
          (m, icmp_send_packet packet len icmp_dest_unreach icmp_host_unreach ∷ free packet ∷ [])
      translate_packet_at dir_in =
          if protocol packet == ipproto_tcp then do_translation_at dir_in else (m, free packet ∷ [])
      translate_packet_at dir_out =
          if protocol packet == ipproto_tcp
          then do_translation_at dir_out
          else (m, free packet ∷ [])

      unfoldable pub nat_translate_packet_at : Memory × List Action
      unfolding translate_packet_at get_packet_direction_at
      nat_translate_packet_at = translate_packet_at (get_packet_direction_at m packet)
