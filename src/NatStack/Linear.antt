-- ===== src/NatStack/Linear.antt =====
-- nat_stack/nat.c, the version that the Makefile builds: every mapping stands in list 0, and the
-- lookups search all lists. `inet_addr`, the time and the address that `malloc` returns are arguments.
pub mod Init
pub mod Invariant
pub mod Insert
pub mod Actions
pub mod Translate
pub mod RoundTrip
pub mod Timeout
pub mod Exhausted
pub mod Portless
pub mod Store
use mathlib.Core.Option
use net_working_mini_net.Base.{
  ℕ, zero, suc, ◌+◌, ◌==◌, Bool, true, false, ◌||◌, Option, none, some, List, [], ◌∷◌,
  if◌then◌else◌, find, or_else, htons, htonl,
}
use net_working_mini_net.Hash.{hash_8bits}
use net_working_mini_net.Buckets.{set_bucket, add_tail, first_in, delete_in}
use net_working_mini_net.Packet.{
  Bytes, tcp_hdr, saddr, daddr, sport, dport, seq, protocol, ipproto_tcp, icmp_dest_unreach,
  icmp_host_unreach,
}
use net_working_mini_net.NatStack.Rewrite.{update_checksums, rewrite_destination, rewrite_source}
use net_working_mini_net.NatStack.{
  Iface, Dir, dir_in, dir_out, dir_invalid, Connection, zero_connection, Mapping, Table, Action,
  ip_send_packet, icmp_send_packet, free, if_name_to_iface, has_external_port, has_internal,
  is_expired,
}
use net_working_mini_net.NatStack.Ports.{assign_external_port}
use net_working_mini_net.NatStack.Expiry.{expire_from}

-- 1 for a flow that goes on, 0 for one that a FIN has ended.
unfoldable pub is_flow_finished : Connection → ℕ
is_flow_finished conn = if conn.internal_fin == 1 || conn.external_fin == 1 then 0 else 1

unfoldable pub nat_lookup_external : List Mapping → (external_port : ℕ) → Option Mapping
nat_lookup_external mapping_list external_port = find (has_external_port external_port) mapping_list

unfoldable pub nat_lookup_internal : List Mapping → (internal_ip internal_port : ℕ) → Option Mapping
nat_lookup_internal mapping_list internal_ip internal_port =
    find (has_internal internal_ip internal_port) mapping_list

-- The loops of `nat_get_mapping_from_packet` over the lists from `i` on, in the two directions.
unfoldable pub search_external : (left i : ℕ) → (ℕ → List Mapping) → (des_port : ℕ) → Option Mapping
unfolding nat_lookup_external
search_external zero i lists des_port = none
search_external (suc left) i lists des_port =
    or_else (nat_lookup_external (lists i) des_port) (search_external left (suc i) lists des_port)

unfoldable pub search_internal :
    (left i : ℕ) → (ℕ → List Mapping) → (internal_ip src_port : ℕ) → Option Mapping
unfolding nat_lookup_internal
search_internal zero i lists internal_ip src_port = none
search_internal (suc left) i lists internal_ip src_port =
    or_else (nat_lookup_internal (lists i) internal_ip src_port)
      (search_internal left (suc i) lists internal_ip src_port)

-- `nat_get_mapping_from_packet`; every direction but DIR_IN goes by the source.
unfoldable pub nat_get_mapping_from_packet : Table → Bytes → Dir → Option Mapping
nat_get_mapping_from_packet t packet dir_in =
    search_external hash_8bits 0 t.nat_mapping_list (dport packet)
nat_get_mapping_from_packet t packet dir_out =
    search_internal hash_8bits 0 t.nat_mapping_list (saddr packet) (sport packet)
nat_get_mapping_from_packet t packet dir_invalid =
    search_internal hash_8bits 0 t.nat_mapping_list (saddr packet) (sport packet)

-- The statistics of the connection; both fields take the sequence number.
unfoldable pub nat_update_tcp_connection : Bytes → Mapping → Dir → Mapping
nat_update_tcp_connection packet mapping dir_in = record mapping {
  conn = record (mapping.conn) { external_seq_end = seq packet; external_ack = seq packet };
}
nat_update_tcp_connection packet mapping dir_out = record mapping {
  conn = record (mapping.conn) { internal_seq_end = seq packet; internal_ack = seq packet };
}
nat_update_tcp_connection packet mapping dir_invalid = mapping

module _ (inet_addr : List ℕ → ℕ) where
  -- The new mapping stands at the end of the list `k`, and its port is marked in the pool.
  unfoldable pub nat_insert_mapping :
      (now addr : ℕ) → Table → (k internal_ip internal_port : ℕ) → Mapping × Table
  nat_insert_mapping now addr t k internal_ip internal_port =
      let (port, pool) = assign_external_port t.assigned_ports in
      let m : Mapping = record {
        addr = addr;
        internal_ip = internal_ip;
        external_ip = inet_addr t.external_iface.ip_str;
        internal_port = internal_port;
        external_port = htons port;
        update_time = now;
        conn = zero_connection;
      } in
      (m, record t { nat_mapping_list = add_tail t.nat_mapping_list k m; assigned_ports = pool })

  unfoldable pub get_packet_direction : Table → Bytes → Dir
  get_packet_direction t packet =
      if htonl (daddr packet) == htonl (inet_addr t.external_iface.ip_str) then dir_in else dir_out

  -- The branches of `do_translation` on the direction and the mapping: the table and the packet
  -- before its checksums are taken. A packet without a mapping is not rewritten.
  unfoldable pub translate :
      (now addr : ℕ) → Table → Bytes → (tcp : ℕ) → Dir → Option Mapping → Table × Bytes
  translate now addr t packet tcp dir_in (some m) = (t, rewrite_destination packet tcp m)
  translate now addr t packet tcp dir_in none =
      ((nat_insert_mapping now addr t 0 (saddr packet) (sport packet)).1, packet)
  translate now addr t packet tcp dir_out (some m) =
      (t, rewrite_source packet tcp (inet_addr t.external_iface.ip_str) m)
  translate now addr t packet tcp dir_out none =
      ((nat_insert_mapping now addr t 0 (saddr packet) (sport packet)).1, packet)
  translate now addr t packet tcp dir_invalid (some m) =
      (t, rewrite_source packet tcp (inet_addr t.external_iface.ip_str) m)
  translate now addr t packet tcp dir_invalid none =
      ((nat_insert_mapping now addr t 0 (saddr packet) (sport packet)).1, packet)

  unfoldable pub do_translation :
      (now addr : ℕ) → Table → Bytes → (len : ℕ) → Dir → Table × List Action
  unfolding translate
  do_translation now addr t packet len dir =
      let tcp = tcp_hdr packet in
      let (t', p) =
        translate now addr t packet tcp dir (nat_get_mapping_from_packet t packet dir) in
      (t', ip_send_packet (update_checksums p tcp) len ∷ [])

  -- `nat_translate_packet` behind the choice of the direction.
  unfoldable pub translate_packet :
      (now addr : ℕ) → Table → Bytes → (len : ℕ) → Dir → Table × List Action
  translate_packet now addr t packet len dir_invalid =
      (t, icmp_send_packet packet len icmp_dest_unreach icmp_host_unreach ∷ free packet ∷ [])
  translate_packet now addr t packet len dir_in =
      if protocol packet == ipproto_tcp
      then do_translation now addr t packet len dir_in
      else (t, free packet ∷ [])
  translate_packet now addr t packet len dir_out =
      if protocol packet == ipproto_tcp
      then do_translation now addr t packet len dir_out
      else (t, free packet ∷ [])

  unfoldable pub nat_translate_packet :
      (now addr : ℕ) → Table → Bytes → (len : ℕ) → Table × List Action
  unfolding translate_packet
  nat_translate_packet now addr t packet len =
      translate_packet now addr t packet len (get_packet_direction t packet)

-- The timeout thread runs the loops once.
unfoldable pub nat_timeout : (now : ℕ) → Table → Table
nat_timeout now t = expire_from (is_expired now) hash_8bits 0 t

-- How `nat_table_init` ends. The name of the external interface is printed before the test for NULL.
pub data InitResult (T : Type 0) : Type 0 where
  ready : T → InitResult T
  exit_failure : InitResult T
  null_dereference : InitResult T

-- The tests on the two interfaces that were looked up, in the order of the statements.
unfoldable pub table_of_ifaces : (internal external : Option Iface) → InitResult Table
table_of_ifaces _ none = null_dereference
table_of_ifaces none (some _) = exit_failure
table_of_ifaces (some internal) (some external) = ready (record {
  nat_mapping_list = λ i. [];
  internal_iface = internal;
  external_iface = external;
  assigned_ports = λ k. 0;
})

-- The names "n1-eth0" and "n1-eth1".
abbrev pub internal_name : List ℕ
internal_name = b'n' ∷ b'1' ∷ b'-' ∷ b'e' ∷ b't' ∷ b'h' ∷ b'0' ∷ []

abbrev pub external_name : List ℕ
external_name = b'n' ∷ b'1' ∷ b'-' ∷ b'e' ∷ b't' ∷ b'h' ∷ b'1' ∷ []

unfoldable pub nat_table_init : List Iface → InitResult Table
unfolding table_of_ifaces
nat_table_init ifaces =
    table_of_ifaces (if_name_to_iface ifaces internal_name) (if_name_to_iface ifaces external_name)

-- Every mapping is deleted and freed; the pool and the interfaces stay. The SIGTERM that the function sends to
-- the thread of `nat_timeout` behind the loop is left out.
unfoldable pub nat_table_destroy : Table → Table
nat_table_destroy t = record t {
  nat_mapping_list = delete_in (λ _. true) hash_8bits 0 t.nat_mapping_list;
}
