-- ===== src/NatStack/Rewrite.antt =====
-- The stores into the packet that `do_translation` of nat.c and of nat_new_2.c make alike.
pub mod Endpoints
pub mod Sums
use net_working_mini_net.Base.{ℕ, ◌+◌}
use net_working_mini_net.Packet.{Bytes, set16, set32, saddr_off, daddr_off, ip_checksum_off}
use net_working_mini_net.Packet.Checksum.{ip_checksum, tcp_checksum, tcp_checksum_off}
use net_working_mini_net.NatStack.{Mapping}

-- `ip_hdr->checksum = ip_checksum(ip_hdr); tcp_hdr->checksum = tcp_checksum(ip_hdr, tcp_hdr);`
unfoldable pub update_checksums : Bytes → (tcp : ℕ) → Bytes
update_checksums p tcp =
    let (sum, p₁) = ip_checksum p in
    let p₂ = set16 p₁ ip_checksum_off sum in
    let (cksum, p₃) = tcp_checksum p₂ tcp in set16 p₃ (tcp + tcp_checksum_off) cksum

-- The rewriting of a packet that comes in, and of one that goes out.
unfoldable pub rewrite_destination : Bytes → (tcp : ℕ) → Mapping → Bytes
rewrite_destination p tcp m = set16 (set32 p daddr_off m.internal_ip) (tcp + 2) m.internal_port

unfoldable pub rewrite_source : Bytes → (tcp nat_ip : ℕ) → Mapping → Bytes
rewrite_source p tcp nat_ip m = set16 (set32 p saddr_off nat_ip) tcp m.external_port
