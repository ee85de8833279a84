-- ===== src/NatStack/Rewrite/Sums.antt =====
-- The checksums of a rewritten packet: the addresses and ports they leave alone, and the IP header.
use net_working_mini_net.Base.{ℕ, ◌+◌, ◌%◌, ◌≤◌, ◌≡◌, ap, sym, ◌∙◌, arith}
use net_working_mini_net.Packet.{
  Bytes, get16, set16, get32, ip_hdr, ip_hdr_size, tcp_hdr, saddr, daddr, sport, dport,
  ip_checksum_off,
}
use net_working_mini_net.Packet.Fields.{IsBytes, get16-set16_ne, get32-set16_ne, set16-IsBytes}
use net_working_mini_net.Packet.Checksum.{checksum, ip_checksum, tcp_checksum, tcp_checksum_off}
use net_working_mini_net.Packet.Checksum.Sum.{checksum-set16_behind}
use net_working_mini_net.Packet.Checksum.Verify.{
  ip_checksum-verifies, ip_checksum_restores, tcp_checksum_restores,
}
use net_working_mini_net.NatStack.Rewrite.{update_checksums}
use net_working_mini_net.NatStack.Rewrite.Endpoints.{
  Endpoints, ip_hdr_size-set16, tcp_hdr_size, tcp_hdr-le,
}

-- The packet after the IP checksum, and the two stores as a whole.
module _ (p : Bytes) (tcp : ℕ) (bytes : IsBytes p) where
  stored : Bytes
  stored = set16 p ip_checksum_off (ip_checksum p).0

  update_checksums-stores :
      update_checksums p tcp ≡ set16 stored (tcp + tcp_checksum_off) (tcp_checksum stored tcp).0
  unfolding update_checksums stored
  update_checksums-stores = rw (ip_checksum_restores p bytes) (
      rw (
        tcp_checksum_restores (set16 p 24 (ip_checksum p).0) tcp
          (set16-IsBytes p 24 (ip_checksum p).0 bytes)))

  update_checksums_size : 34 ≤ tcp → ip_hdr_size (update_checksums p tcp) ≡ ip_hdr_size p
  update_checksums_size h =
      ap ip_hdr_size update_checksums-stores
      ∙ ip_hdr_size-set16 stored (tcp + 16) (tcp_checksum stored tcp).0 (omega arith)
      ∙ unfold stored in ip_hdr_size-set16 p 24 (ip_checksum p).0 (omega arith)

  get16-update_checksums :
      (o : ℕ) → 26 ≤ o → o + 2 ≤ tcp + 16 → get16 (update_checksums p tcp) o ≡ get16 p o
  get16-update_checksums o h k =
      ap (λ q. get16 q o) update_checksums-stores
      ∙ get16-set16_ne stored (tcp + 16) (tcp_checksum stored tcp).0 o (omega arith)
      ∙ unfold stored in get16-set16_ne p 24 (ip_checksum p).0 o (omega arith)

  get32-update_checksums :
      (o : ℕ) → 26 ≤ o → o + 4 ≤ tcp + 16 → get32 (update_checksums p tcp) o ≡ get32 p o
  get32-update_checksums o h k =
      ap (λ q. get32 q o) update_checksums-stores
      ∙ get32-set16_ne stored (tcp + 16) (tcp_checksum stored tcp).0 o (omega arith)
      ∙ unfold stored in get32-set16_ne p 24 (ip_checksum p).0 o (omega arith)

-- Taking the checksums changes no address and no port.
pub update_checksums-Endpoints :
    (p : Bytes)
    → IsBytes p
    → 20 ≤ ip_hdr_size p
    → Endpoints (update_checksums p (tcp_hdr p)) (saddr p) (sport p) (daddr p) (dport p)
unfolding saddr daddr sport dport
update_checksums-Endpoints p b long =
    let tcp = tcp_hdr p in
    let h = tcp_hdr-le p long in
    let same = tcp_hdr_size p (update_checksums p tcp) (update_checksums_size p tcp b h) in
    record {
      from_ip = get32-update_checksums p tcp b 26 (omega arith) (omega arith);
      from_port = rw same (get16-update_checksums p tcp b tcp (omega arith) (omega arith));
      to_ip = get32-update_checksums p tcp b 30 (omega arith) (omega arith);
      to_port = rw same (get16-update_checksums p tcp b (tcp + 2) (omega arith) (omega arith));
    }

-- What is sent carries a valid IP checksum: its header sums to 0.
pub update_checksums-verifies :
    (p : Bytes)
    → IsBytes p
    → 20 ≤ ip_hdr_size p
    → checksum
        (update_checksums p (tcp_hdr p))
        ip_hdr
        (ip_hdr_size (update_checksums p (tcp_hdr p)))
        0
      ≡ 0
update_checksums-verifies p b long =
    let tcp = tcp_hdr p in
    let h = tcp_hdr-le p long in
    rw (update_checksums_size p tcp b h, update_checksums-stores p tcp b)
      (checksum-set16_behind (stored p tcp b) 14 (ip_hdr_size p) 0 (tcp + 16)
          (tcp_checksum (stored p tcp b) tcp).0 (even_size p) (behind p)
        ∙ unfold stored in ip_checksum-verifies p b long)
  where
    even_size : (q : Bytes) → ip_hdr_size q % 2 ≡ 0
    even_size q = unfold ip_hdr_size in omega arith

    behind : (q : Bytes) → 14 + ip_hdr_size q ≤ tcp_hdr q + 16
    behind q = unfold tcp_hdr in omega arith

-- The checksums are taken at the TCP header of the packet as it came, which the rewriting leaves in
-- its place.
pub finish-Endpoints :
    (p q : Bytes) {s sp d dp : ℕ}
    → IsBytes q
    → 20 ≤ ip_hdr_size p
    → ip_hdr_size q ≡ ip_hdr_size p
    → Endpoints q s sp d dp
    → Endpoints (update_checksums q (tcp_hdr p)) s sp d dp
finish-Endpoints p q b long same e =
    let f = update_checksums-Endpoints q b (rw same long) in
    let at : tcp_hdr p ≡ tcp_hdr q = sym (tcp_hdr_size p q same) in
    rw at (record {
      from_ip = f.from_ip ∙ e.from_ip;
      from_port = f.from_port ∙ e.from_port;
      to_ip = f.to_ip ∙ e.to_ip;
      to_port = f.to_port ∙ e.to_port;
    })

pub finish-verifies :
    (p q : Bytes)
    → IsBytes q
    → 20 ≤ ip_hdr_size p
    → ip_hdr_size q ≡ ip_hdr_size p
    → checksum
        (update_checksums q (tcp_hdr p))
        ip_hdr
        (ip_hdr_size (update_checksums q (tcp_hdr p)))
        0
      ≡ 0
finish-verifies p q b long same =
    let at : tcp_hdr p ≡ tcp_hdr q = sym (tcp_hdr_size p q same) in
    rw at (update_checksums-verifies q b (rw same long))
