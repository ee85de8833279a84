-- ===== src/Packet.antt =====
-- Packets as memory: nat_stack/include/ether.h, ip.h, tcp.h and icmp.h. A packet is the bytes from its
-- start on; a `u16` or `u32` field is what a little-endian host loads at the field's offset.
pub mod Fields
pub mod Checksum
use net_working_mini_net.Base.{
  ℕ, zero, suc, ◌+◌, ◌-◌, ◌*◌, ◌/◌, ◌%◌, ◌^◌, ◌==◌, if◌then◌else◌, u16, u32, htons,
}

abbrev pub Bytes : Type 0
Bytes = ℕ → ℕ

unfoldable pub set8 : Bytes → ℕ → ℕ → Bytes
set8 p off v k = if k == off then v % 256 else p k

unfoldable pub get16 : Bytes → ℕ → ℕ
get16 p off = p off + p (off + 1) * 256

unfoldable pub set16 : Bytes → ℕ → ℕ → Bytes
unfolding set8
set16 p off v = set8 (set8 p off v) (off + 1) (v / 256)

unfoldable pub get32 : Bytes → ℕ → ℕ
unfolding get16
get32 p off = get16 p off + get16 p (off + 2) * 2 ^ 16

unfoldable pub set32 : Bytes → ℕ → ℕ → Bytes
unfolding set16
set32 p off v = set16 (set16 p off v) (off + 2) (v / 2 ^ 16)

-- ether.h: the header has 14 bytes, with the type in the last two.
abbrev pub ether_hdr_size : ℕ
ether_hdr_size = 14

abbrev pub eth_p_ip : ℕ
eth_p_ip = 0x0800

abbrev pub eth_p_arp : ℕ
eth_p_arp = 0x0806

unfoldable pub ether_type : Bytes → ℕ
unfolding get16
ether_type p = get16 p 12

-- ip.h: the header stands behind the Ethernet header. `packet_to_ip_hdr` as an offset.
abbrev pub ip_hdr : ℕ
ip_hdr = ether_hdr_size

abbrev pub ipproto_icmp : ℕ
ipproto_icmp = 1

abbrev pub ipproto_tcp : ℕ
ipproto_tcp = 6

-- `ihl` is the low half of the first byte.
unfoldable pub ihl : Bytes → ℕ
ihl p = p ip_hdr % 16

-- `IP_HDR_SIZE`
unfoldable pub ip_hdr_size : Bytes → ℕ
unfolding ihl
ip_hdr_size p = ihl p * 4

unfoldable pub tot_len : Bytes → ℕ
unfolding get16
tot_len p = get16 p (ip_hdr + 2)

unfoldable pub protocol : Bytes → ℕ
protocol p = p (ip_hdr + 9)

abbrev pub ip_checksum_off : ℕ
ip_checksum_off = ip_hdr + 10

abbrev pub saddr_off : ℕ
saddr_off = ip_hdr + 12

abbrev pub daddr_off : ℕ
daddr_off = ip_hdr + 16

unfoldable pub saddr : Bytes → ℕ
unfolding get32
saddr p = get32 p saddr_off

unfoldable pub daddr : Bytes → ℕ
unfolding get32
daddr p = get32 p daddr_off

-- tcp.h: `packet_to_tcp_hdr` as an offset, and the offsets of the fields.
unfoldable pub tcp_hdr : Bytes → ℕ
unfolding ip_hdr_size
tcp_hdr p = ip_hdr + ip_hdr_size p

unfoldable pub sport : Bytes → ℕ
unfolding get16 tcp_hdr
sport p = get16 p (tcp_hdr p)

unfoldable pub dport : Bytes → ℕ
unfolding get16 tcp_hdr
dport p = get16 p (tcp_hdr p + 2)

unfoldable pub seq : Bytes → ℕ
unfolding get32 tcp_hdr
seq p = get32 p (tcp_hdr p + 4)

unfoldable pub ack : Bytes → ℕ
unfolding get32 tcp_hdr
ack p = get32 p (tcp_hdr p + 8)

unfoldable pub flags : Bytes → ℕ
unfolding tcp_hdr
flags p = p (tcp_hdr p + 13)

-- icmp.h: the type is the first byte behind the IP header (`IP_DATA`).
abbrev pub icmp_echoreply : ℕ
icmp_echoreply = 0

abbrev pub icmp_dest_unreach : ℕ
icmp_dest_unreach = 3

abbrev pub icmp_host_unreach : ℕ
icmp_host_unreach = 1

abbrev pub icmp_echorequest : ℕ
icmp_echorequest = 8

unfoldable pub icmp_type : Bytes → ℕ
unfolding tcp_hdr
icmp_type p = p (tcp_hdr p)
