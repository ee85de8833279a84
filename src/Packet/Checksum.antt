-- ===== src/Packet/Checksum.antt =====
-- nat_stack/include/checksum.h, and the checksums of ip.h, tcp.h and icmp.h that call it.
pub mod Sum
pub mod Verify
pub mod Carry
use net_working_mini_net.Base.{
  ℕ, zero, suc, ◌+◌, ◌-◌, ◌*◌, ◌/◌, ◌%◌, ◌^◌, ◌==◌, if◌then◌else◌, u16, u32, htons,
}
use net_working_mini_net.Packet.{
  Bytes, get16, set16, ip_hdr, ip_hdr_size, ip_checksum_off, tcp_hdr, protocol, tot_len, saddr,
  daddr,
}

-- `for (i = 0; i < nbytes / 2; i++) sum += buf[i];` on a `u32`, with `left` rounds to go.
unfoldable pub add_words : (left : ℕ) → Bytes → (off sum : ℕ) → ℕ
add_words zero p off sum = sum
add_words (suc left) p off sum = add_words left p (off + 2) (u32 (sum + get16 p off))

-- The two folds of the carries; the cast to `u16` comes at the end.
unfoldable pub fold_once : ℕ → ℕ
fold_once sum = u32 (sum / 2 ^ 16 + sum % 2 ^ 16)

unfoldable pub fold_again : ℕ → ℕ
fold_again sum = u32 (sum + sum / 2 ^ 16)

-- `checksum(buf, nbytes, sum)` at the address `off`.
unfoldable pub checksum : Bytes → (off nbytes sum : ℕ) → ℕ
unfolding add_words fold_once fold_again
checksum p off nbytes sum =
    let s = fold_again (fold_once (add_words (nbytes / 2) p off sum)) in
    let t = (if nbytes % 2 == 0 then s else u32 (s + p (off + nbytes - 1))) in u16 (2 ^ 32 - 1 - t)

-- The field is zero while the sum is taken, and gets its old value back.
unfoldable pub ip_checksum : Bytes → ℕ × Bytes
unfolding checksum
ip_checksum p =
    let tmp = get16 p ip_checksum_off in
    let p₀ = set16 p ip_checksum_off 0 in
    let sum = checksum p₀ ip_hdr (ip_hdr_size p₀) 0 in (sum, set16 p₀ ip_checksum_off tmp)

-- `ntohs(ip->tot_len) - IP_HDR_SIZE(ip)` as a `u16`.
unfoldable pub tcp_len : Bytes → ℕ
tcp_len p = u16 (htons (tot_len p) + 2 ^ 16 - ip_hdr_size p)

-- `ip->saddr + ip->daddr + htons(reserv_proto) + htons(tcp_len)` as a `u32`.
unfoldable pub pseudo_sum : Bytes → ℕ
pseudo_sum p = u32 (saddr p + daddr p + htons (protocol p) + htons (tcp_len p))

-- The offset of the field `checksum` in the TCP header.
abbrev pub tcp_checksum_off : ℕ
tcp_checksum_off = 16

-- `tcp_checksum(ip, tcp)`, with the address of the TCP header.
unfoldable pub tcp_checksum : Bytes → (tcp : ℕ) → ℕ × Bytes
unfolding checksum
tcp_checksum p tcp =
    let off = tcp + tcp_checksum_off in
    let tmp = get16 p off in
    let p₀ = set16 p off 0 in
    let cksum = checksum p₀ tcp (tcp_len p₀) (pseudo_sum p₀) in (cksum, set16 p₀ off tmp)

-- `icmp_checksum(icmp, len)`; the field is the second `u16` of the header.
unfoldable pub icmp_checksum : Bytes → (len : ℕ) → ℕ × Bytes
unfolding checksum
icmp_checksum p len =
    let off = tcp_hdr p + 2 in
    let tmp = get16 p off in
    let p₀ = set16 p off 0 in let sum = checksum p₀ (tcp_hdr p) len 0 in (sum, set16 p₀ off tmp)
