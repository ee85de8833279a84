-- ===== src/Packet/Checksum/Verify.antt =====
-- What a receiver gets that sums a header or a segment with its stored checksum.
use net_working_mini_net.Base.{
  htons, ℕ, ◌+◌, ◌-◌, ◌*◌, ◌/◌, ◌%◌, ◌^◌, ◌≤◌, ◌<◌, ◌≡◌, ◌∙◌, ap, inl, inr, arith,
}
use net_working_mini_net.Packet.{
  Bytes, set16, ip_hdr, ip_hdr_size, ip_checksum_off, tot_len, protocol, saddr, daddr,
}
use net_working_mini_net.Packet.Fields.{
  IsBytes, set16_at, set16-IsBytes, get16-set16_ne, get32-set16_ne,
}
use net_working_mini_net.Packet.Checksum.{
  checksum, ip_checksum, tcp_len, pseudo_sum, tcp_checksum_off, tcp_checksum,
}
use net_working_mini_net.Packet.Checksum.Sum.{
  total, total-le, folded, folded_pos, folded-zero, pos_or_zero, checksum-even, total-set16,
  set16_restore,
}

-- A sum and its complement add up to a multiple of 65535 that is not 0.
folded-complement : (t : ℕ) → t + 65535 < 2 ^ 32 → folded (t + (65535 - folded t)) ≡ 65535
folded-complement t h = elim (pos_or_zero t) [
  | inl z ↦ rw (z, folded-zero) (omega (arith, folded_pos 65535 (omega arith) (omega arith)))
  | inr q ↦ omega (
    arith,
    folded_pos t q (omega arith),
    folded_pos (t + (65535 - folded t)) (omega arith) (omega arith),
  )
]

-- The buffer whose word `i` is zero for the sum, and then gets the complement, sums to 0.
pub checksum_stored :
    (p : Bytes) (off nbytes sum i : ℕ)
    → nbytes % 2 ≡ 0
    → i < nbytes / 2
    → sum + total (nbytes / 2) (set16 p (off + 2 * i) 0) off + 65535 < 2 ^ 32
    → checksum
        (set16 p (off + 2 * i) (checksum (set16 p (off + 2 * i) 0) off nbytes sum))
        off
        nbytes
        sum
      ≡ 0
checksum_stored p off nbytes sum i even inside fits =
    let k = off + 2 * i in
    let t = sum + total (nbytes / 2) (set16 p k 0) off in
    let c = checksum-even (set16 p k 0) off nbytes sum even (omega arith) in
    let zeroed = total-set16 (nbytes / 2) i p off k 0 inside (omega arith) (omega arith) in
    let stored =
      total-set16 (nbytes / 2) i p off k (65535 - folded t) inside (omega arith) (omega arith) in
    let sums : sum + total (nbytes / 2) (set16 p k (65535 - folded t)) off
        ≡ t + (65535 - folded t) =
      omega arith in
    rw c (
      checksum-even (set16 p k (65535 - folded t)) off nbytes sum even (omega arith)
      ∙ ap (λ (u : ℕ). 65535 - folded u) sums
      ∙ ap (λ (u : ℕ). 65535 - u) (folded-complement t fits))

-- The fields that the sums read lie before the TCP header, so a store from there on spares them.
ip_hdr_size-set16 : (p : Bytes) (o v : ℕ) → 15 ≤ o → ip_hdr_size (set16 p o v) ≡ ip_hdr_size p
unfolding ip_hdr_size
ip_hdr_size-set16 p o v h =
    omega (arith, ap (λ (b : ℕ). b % 16 * 4) (set16_at p o v 14 (omega arith)))

tcp_len-set16 : (p : Bytes) (o v : ℕ) → 34 ≤ o → tcp_len (set16 p o v) ≡ tcp_len p
unfolding tcp_len tot_len
tcp_len-set16 p o v h =
    rw (get16-set16_ne p o v 16 (omega arith), ip_hdr_size-set16 p o v (omega arith))

pseudo_sum-set16 : (p : Bytes) (o v : ℕ) → 34 ≤ o → pseudo_sum (set16 p o v) ≡ pseudo_sum p
unfolding pseudo_sum saddr daddr protocol
pseudo_sum-set16 p o v h = rw (
  get32-set16_ne p o v 26 (omega arith),
  get32-set16_ne p o v 30 (omega arith),
  set16_at p o v 23 (omega arith),
  tcp_len-set16 p o v h,
)

ip_hdr_size-lt : (p : Bytes) → (ip_hdr_size p / 2 ≤ 30) × (ip_hdr_size p % 2 ≡ 0)
unfolding ip_hdr_size
ip_hdr_size-lt p = omega arith

-- The IP header of a packet made of bytes, of at least 20 bytes, sums to 0 with the result of
-- `ip_checksum` stored in its checksum field.
pub ip_checksum-verifies :
    (p : Bytes)
    → IsBytes p
    → 20 ≤ ip_hdr_size p
    → checksum (set16 p ip_checksum_off (ip_checksum p).0) ip_hdr (ip_hdr_size p) 0 ≡ 0
unfolding ip_checksum
ip_checksum-verifies p b five =
    let p₀ = set16 p 24 0 in
    let z = total-le (ip_hdr_size p / 2) p₀ 14 (set16-IsBytes p 24 0 b) in
    rw (ip_hdr_size-set16 p 24 0 (omega arith)) (
      checksum_stored p 14 (ip_hdr_size p) 0 5 (ip_hdr_size-lt p).1 (omega arith)
        (omega (arith, ip_hdr_size-lt p)))

-- The fields of the pseudo header added up with no bound.
abbrev pub pseudo_total : Bytes → ℕ
pseudo_total p = saddr p + daddr p + htons (protocol p) + htons (tcp_len p)

pseudo_sum-total : (p : Bytes) → pseudo_total p ≡ pseudo_sum p + pseudo_total p / 2 ^ 32 * 2 ^ 32
unfolding pseudo_sum
pseudo_sum-total p = omega arith

complement_mod :
    (s t lost : ℕ)
    → s + t < 2 ^ 32
    → (s + lost * 2 ^ 32 + (t + (65535 - folded (s + t)))) % 65535 ≡ lost % 65535
complement_mod s t lost h = elim (pos_or_zero (s + t)) [
  | inl z ↦ rw (z, folded-zero) (omega arith)
  | inr q ↦ omega (arith, folded_pos (s + t) q h)
]

-- A TCP segment starts behind an IP header of 20 bytes or more, has an even length of at least 20 bytes,
-- and its words with a zero checksum add up below 2 ^ 32 with `pseudo_sum`. With the result of
-- `tcp_checksum` in its checksum field, the fields of the pseudo header and the words of the segment, added
-- up with no bound, give modulo 65535 the number of carries out of 32 bits in the sum of the pseudo header:
-- 0, as a receiver demands, if that sum is below 2 ^ 32, and else the carries that `pseudo_sum` loses.
pub tcp_checksum-verifies :
    (p : Bytes) (tcp : ℕ)
    → 34 ≤ tcp
    → tcp_len p % 2 ≡ 0
    → 20 ≤ tcp_len p
    → pseudo_sum p + total (tcp_len p / 2) (set16 p (tcp + tcp_checksum_off) 0) tcp < 2 ^ 32
    → (pseudo_total p
          + total (tcp_len p / 2) (set16 p (tcp + tcp_checksum_off) (tcp_checksum p tcp).0) tcp)
        % 65535
      ≡ (pseudo_total p / 2 ^ 32) % 65535
unfolding tcp_checksum
tcp_checksum-verifies p tcp behind even long fits =
    let o = tcp + 16 in
    let n = tcp_len p / 2 in
    let p₀ = set16 p o 0 in
    let s = pseudo_sum p in
    let t = total n p₀ tcp in
    let c = 65535 - folded (s + t) in
    let sum : checksum p₀ tcp (tcp_len p) s ≡ c = checksum-even p₀ tcp (tcp_len p) s even fits in
    let zeroed = total-set16 n 8 p tcp o 0 (omega arith) (omega arith) (omega arith) in
    let stored = total-set16 n 8 p tcp o c (omega arith) (omega arith) (omega arith) in
    let words : total n (set16 p o c) tcp ≡ t + c = omega arith in
    let lost = pseudo_total p / 2 ^ 32 in
    rw (tcp_len-set16 p o 0 (omega arith), pseudo_sum-set16 p o 0 (omega arith), sum, words)
      (ap (λ (u : ℕ). (u + (t + c)) % 65535) (pseudo_sum-total p) ∙ complement_mod s t lost fits)

-- Both leave the packet as it was: the checksum field gets its old value back.
pub ip_checksum_restores : (p : Bytes) → IsBytes p → (ip_checksum p).1 ≡ p
unfolding ip_checksum
ip_checksum_restores p b = set16_restore p ip_checksum_off b

pub tcp_checksum_restores : (p : Bytes) (tcp : ℕ) → IsBytes p → (tcp_checksum p tcp).1 ≡ p
unfolding tcp_checksum
tcp_checksum_restores p tcp b = set16_restore p (tcp + tcp_checksum_off) b
