-- ===== src/NatStack/Hashed.antt =====
-- nat_stack/nat_new_2.c: every mapping is stored twice, in the list of its internal address and port
-- and in the list of its external address and port. `inet_addr`, the time and the two addresses
-- that `malloc` returns are arguments.
pub mod Start
pub mod Twins
pub mod Idle
pub mod Store
use mathlib.Core.Option
use Prim.Native.Nat.{bit_and}
use net_working_mini_net.Base.{
  ℕ, zero, suc, ◌+◌, ◌%◌, ◌==◌, Bool, true, false, not, ◌||◌, ◌&&◌, Option, none, some, List, [],
  ◌∷◌, map, if◌then◌else◌, find, htons, htonl, u32,
}
use net_working_mini_net.Hash.{hash_8bits}
use net_working_mini_net.Buckets.{set_bucket, add_tail}
use net_working_mini_net.Packet.{
  Bytes, tcp_hdr, saddr, daddr, sport, dport, seq, ack, flags, protocol, ipproto_tcp,
  icmp_dest_unreach, icmp_host_unreach,
}
use net_working_mini_net.NatStack.{
  Iface, Dir, dir_in, dir_out, dir_invalid, Connection, zero_connection, Mapping, Table, Action,
  ip_send_packet, icmp_send_packet, free, nat_hash, if_name_to_iface, has_external_port,
  has_internal, is_expired,
}
use net_working_mini_net.NatStack.Ports.{assign_external_port_incl}
use net_working_mini_net.NatStack.Expiry.{expire_from}
use net_working_mini_net.NatStack.Rewrite.{update_checksums, rewrite_destination, rewrite_source}

-- Both sides have sent a FIN, and each has acknowledged what the other sent last.
unfoldable pub is_flow_finished : Connection → Bool
is_flow_finished conn =
    conn.external_fin == 1
    && conn.internal_fin == 1
    && conn.external_ack == u32 (conn.internal_seq_end + 1)
    && conn.internal_ack == u32 (conn.external_seq_end + 1)

-- The list of an address and a port.
unfoldable pub bucket : (addr port : ℕ) → ℕ
bucket addr port = nat_hash addr port % hash_8bits

unfoldable pub nat_lookup_external : Table → (external_port : ℕ) → Option Mapping
nat_lookup_external t external_port =
    find (has_external_port external_port)
      (t.nat_mapping_list (bucket t.external_iface.ip external_port))

unfoldable pub nat_lookup_internal : Table → (internal_ip internal_port : ℕ) → Option Mapping
nat_lookup_internal t internal_ip internal_port =
    find (has_internal internal_ip internal_port)
      (t.nat_mapping_list (bucket internal_ip internal_port))

-- The entry that is returned, and its twin, whose time is never set.
abbrev pub entry_for : Table → (now addr internal_ip internal_port port : ℕ) → Mapping
entry_for t now addr internal_ip internal_port port = record {
  addr = addr;
  internal_ip = internal_ip;
  external_ip = t.external_iface.ip;
  internal_port = internal_port;
  external_port = htons port;
  update_time = now;
  conn = zero_connection;
}

unfoldable pub nat_insert_mapping :
    (now addr addr' : ℕ) → Table → (internal_ip internal_port : ℕ) → Mapping × Table
nat_insert_mapping now addr addr' t internal_ip internal_port =
    let (port, pool) = assign_external_port_incl t.assigned_ports in
    let m = entry_for t now addr internal_ip internal_port port in
    let twin = entry_for t 0 addr' internal_ip internal_port port in
    let lists = add_tail t.nat_mapping_list (bucket internal_ip internal_port) m in
    let lists' = add_tail lists (bucket t.external_iface.ip twin.external_port) twin in
    (m, record t { nat_mapping_list = lists'; assigned_ports = pool })

unfoldable pub get_packet_direction : Table → Bytes → Dir
get_packet_direction t packet =
    if htonl (daddr packet) == t.external_iface.ip then dir_in else dir_out

unfoldable pub nat_update_tcp_connection : Bytes → Mapping → Dir → Mapping
nat_update_tcp_connection packet mapping dir_in = record mapping {
  conn = record (mapping.conn) {
    external_fin = bit_and (flags packet) 1;
    external_seq_end = seq packet;
    external_ack = ack packet;
  };
}
nat_update_tcp_connection packet mapping dir_out = record mapping {
  conn = record (mapping.conn) {
    internal_fin = bit_and (flags packet) 1;
    internal_seq_end = seq packet;
    internal_ack = ack packet;
  };
}
nat_update_tcp_connection packet mapping dir_invalid = mapping

-- The mapping of the source, which is inserted where there is none.
unfoldable pub found_or_inserted :
    Option Mapping
    → (now addr addr' : ℕ) → Table
    → (internal_ip internal_port : ℕ) → Mapping × Table
found_or_inserted (some m) now addr addr' t internal_ip internal_port = (m, t)
found_or_inserted none now addr addr' t internal_ip internal_port =
    nat_insert_mapping now addr addr' t internal_ip internal_port

-- `time(&mapping_entry->update_time)`: the one entry at this address gets the time.
unfoldable pub touch_entry : (addr now : ℕ) → Mapping → Mapping
touch_entry addr now m = if m.addr == addr then record m { update_time = now } else m

unfoldable pub touch : (addr now : ℕ) → Table → Table
touch addr now t = record t {
  nat_mapping_list = λ i. map (touch_entry addr now) (t.nat_mapping_list i);
}

module _ (inet_addr : List ℕ → ℕ) where
  -- The packet is rewritten, the mapping's time set, and the packet sent.
  unfoldable pub translate_in :
      (now : ℕ) → Table → Bytes → (len : ℕ) → Mapping → Table × List Action
  translate_in now t packet len m =
      let tcp = tcp_hdr packet in
      (
        touch m.addr now t,
        ip_send_packet (update_checksums (rewrite_destination packet tcp m) tcp) len ∷ [],
      )

  unfoldable pub translate_out :
      (now : ℕ) → Table → Bytes → (len : ℕ) → Mapping → Table × List Action
  translate_out now t packet len m =
      let tcp = tcp_hdr packet in
      let nat_ip = inet_addr t.external_iface.ip_str in
      (
        touch m.addr now t,
        ip_send_packet (update_checksums (rewrite_source packet tcp nat_ip m) tcp) len ∷ [],
      )

  -- `do_translation`. An incoming packet without a mapping reaches `mapping_entry->external_port` with
  -- `mapping_entry == NULL`: that is `none`.
  unfoldable pub do_translation :
      (now addr addr' : ℕ) → Table → Bytes → (len : ℕ) → Dir → Option (Table × List Action)
  do_translation now addr addr' t packet len dir_in =
      Option.map (translate_in now t packet len) (nat_lookup_external t (dport packet))
  do_translation now addr addr' t packet len dir_out =
      let (m, t') =
        found_or_inserted (nat_lookup_internal t (saddr packet) (sport packet)) now addr addr' t
          (saddr packet) (sport packet) in
      some (translate_out now t' packet len m)
  do_translation now addr addr' t packet len dir_invalid =
      let (m, t') =
        found_or_inserted (nat_lookup_internal t (saddr packet) (sport packet)) now addr addr' t
          (saddr packet) (sport packet) in
      some (translate_out now t' packet len m)

  unfoldable pub translate_packet :
      (now addr addr' : ℕ) → Table → Bytes → (len : ℕ) → Dir → Option (Table × List Action)
  translate_packet now addr addr' t packet len dir_invalid =
      some (t, icmp_send_packet packet len icmp_dest_unreach icmp_host_unreach ∷ free packet ∷ [])
  translate_packet now addr addr' t packet len dir_in =
      if protocol packet == ipproto_tcp
      then do_translation now addr addr' t packet len dir_in
      else some (t, free packet ∷ [])
  translate_packet now addr addr' t packet len dir_out =
      if protocol packet == ipproto_tcp
      then do_translation now addr addr' t packet len dir_out
      else some (t, free packet ∷ [])

  unfoldable pub nat_translate_packet :
      (now addr addr' : ℕ) → Table → Bytes → (len : ℕ) → Option (Table × List Action)
  nat_translate_packet now addr addr' t packet len =
      translate_packet now addr addr' t packet len (get_packet_direction t packet)

-- The test of the timeout loops, and the loops.
unfoldable pub is_over : (now : ℕ) → Mapping → Bool
is_over now m = is_flow_finished m.conn || is_expired now m

unfoldable pub nat_timeout : (now : ℕ) → Table → Table
nat_timeout now t = expire_from (is_over now) hash_8bits 0 t
