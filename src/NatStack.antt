-- ===== src/NatStack.antt =====
-- nat_stack: the data of base.h and nat.h that nat.c and nat_new_2.c share.
pub mod Bounds
pub mod Ports
pub mod Rewrite
pub mod Expiry
pub mod Holds
pub mod Linear
pub mod Hashed
pub mod Start
pub mod Main
use Prim.Native.Nat.{bit_xor}
use net_working_mini_net.Base.{ℕ, ◌-◌, Bool, ◌&&◌, Option, List, ◌==◌, leb, find}
use net_working_mini_net.Hash.{hash8, bytes32, bytes16}
use net_working_mini_net.Packet.{Bytes}
use net_working_mini_net.Rings
use net_working_mini_net.Switch.{eq_bytes}

-- `iface_info_t` of nat_stack/include/base.h: `ip` and `mask` are in host byte order.
pub record Iface : Type 0 where
  pub fd : ℕ
  pub index : ℕ
  pub mac : List ℕ
  pub ip : ℕ
  pub mask : ℕ
  pub name : List ℕ
  pub ip_str : List ℕ

-- `enum packet_dir`
pub data Dir : Type 0 where
  dir_in : Dir
  dir_out : Dir
  dir_invalid : Dir

-- `struct nat_connection`
pub record Connection : Type 0 where
  pub internal_fin : ℕ
  pub external_fin : ℕ
  pub internal_seq_end : ℕ
  pub external_seq_end : ℕ
  pub internal_ack : ℕ
  pub external_ack : ℕ

-- What `bzero` leaves.
abbrev pub zero_connection : Connection
zero_connection = record {
  internal_fin = 0;
  external_fin = 0;
  internal_seq_end = 0;
  external_seq_end = 0;
  internal_ack = 0;
  external_ack = 0;
}

-- `struct nat_mapping`; `addr` is the address that `malloc` returned for it. Addresses and ports are
-- in network byte order.
pub record Mapping : Type 0 where
  pub addr : ℕ
  pub internal_ip : ℕ
  pub external_ip : ℕ
  pub internal_port : ℕ
  pub external_port : ℕ
  pub update_time : ℕ
  pub conn : Connection

-- `struct nat_table` without its mutex and its thread.
pub record Table : Type 0 where
  pub nat_mapping_list : ℕ → List Mapping
  pub internal_iface : Iface
  pub external_iface : Iface
  pub assigned_ports : ℕ → ℕ

-- `struct nat_table` again, and the memory that its lists reach.
pub record Memory : Type 0 where
  pub store : Rings.Store Mapping
  pub internal_iface : Iface
  pub external_iface : Iface
  pub assigned_ports : ℕ → ℕ

-- The calls that a handler makes outside the two files: into the IP stack's library, and `free`.
pub data Action : Type 0 where
  ip_send_packet : Bytes → (len : ℕ) → Action
  icmp_send_packet : Bytes → (len type code : ℕ) → Action
  handle_arp_packet : Iface → Bytes → (len : ℕ) → Action
  free : Bytes → Action

unfoldable pub nat_hash : (addr port : ℕ) → ℕ
nat_hash addr port = bit_xor (hash8 (bytes32 addr)) (hash8 (bytes16 port))

-- `if_name_to_iface`; `none` is NULL.
unfoldable pub if_name_to_iface : List Iface → List ℕ → Option Iface
if_name_to_iface ifaces if_name = find (λ iface. eq_bytes iface.name if_name) ifaces

-- The comparisons of the two lookups.
unfoldable pub has_external_port : (external_port : ℕ) → Mapping → Bool
has_external_port external_port m = m.external_port == external_port

unfoldable pub has_internal : (internal_ip internal_port : ℕ) → Mapping → Bool
has_internal internal_ip internal_port m =
    m.internal_ip == internal_ip && m.internal_port == internal_port

-- `update_time - now >= 60`. The signed difference is negative where `-` on ℕ gives 0, and both are
-- below 60 then.
unfoldable pub is_expired : (now : ℕ) → Mapping → Bool
is_expired now m = leb 60 (m.update_time - now)
