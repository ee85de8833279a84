-- ===== src/Packet/Checksum/Carry.antt =====
-- Where checksum.h loses a carry: a buffer of odd length.
use net_working_mini_net.Base.{ℕ, ◌+◌, ◌-◌, ◌/◌, ◌%◌, ◌^◌, ◌≤◌, ◌<◌, ◌≡◌, ap, inl, inr, arith}
use net_working_mini_net.Packet.{Bytes}
use net_working_mini_net.Packet.Checksum.{checksum}
use net_working_mini_net.Packet.Checksum.Sum.{
  total, folded, folded_pos, folded-zero, pos_or_zero, checksum-odd,
}

carry-lost :
    (t b : ℕ)
    → b < 256
    → t < 2 ^ 32
    → 65536 ≤ folded t + b
    → (t + b + (65535 - (folded t + b) % 2 ^ 16)) % 65535 ≡ 1
carry-lost t b hb ht carry = elim (pos_or_zero t) [
  | inl z ↦ absurd (omega (arith, ap folded z, folded-zero))
  | inr q ↦ omega (arith, folded_pos t q ht)
]

-- On a buffer of odd length whose words add up below 2 ^ 32, whose last cell is a byte, and whose
-- folded words exceed 16 bits with it, the sum of the words, the last byte and the checksum is 1
-- modulo 65535, where a correct checksum gives 0.
pub checksum_odd_carry :
    (p : Bytes) (off nbytes sum : ℕ)
    → p (off + nbytes - 1) < 256
    → nbytes % 2 ≡ 1
    → sum + total (nbytes / 2) p off < 2 ^ 32
    → 65536 ≤ folded (sum + total (nbytes / 2) p off) + p (off + nbytes - 1)
    → (sum + total (nbytes / 2) p off + p (off + nbytes - 1) + checksum p off nbytes sum) % 65535
      ≡ 1
checksum_odd_carry p off nbytes sum b odd fits carry =
    rw (checksum-odd p off nbytes sum odd fits)
      (carry-lost (sum + total (nbytes / 2) p off) (p (off + nbytes - 1)) b fits carry)
