-- ===== src/Packet/Checksum/Sum.antt =====
-- The checksum of a buffer against the plain sum of its 16-bit words.
use mathlib.Core.Path.{fun_ext}
use net_working_mini_net.Base.{
  ℕ, zero, suc, ◌+◌, ◌-◌, ◌*◌, ◌/◌, ◌%◌, ◌^◌, ◌≤◌, ◌<◌, ◌≡◌, refl, ◌⊎◌, inr, arith, u32,
}
use net_working_mini_net.Packet.{Bytes, get16, set16}
use net_working_mini_net.Packet.Fields.{IsBytes, get16-lt, get16-set16_self, get16-set16_ne}
use net_working_mini_net.Packet.Checksum.{checksum, add_words, fold_once, fold_again}

-- The sum of `n` words from the address `off` on, with no bound.
unfoldable pub total : ℕ → Bytes → ℕ → ℕ
total zero p off = 0
total (suc n) p off = get16 p off + total n p (off + 2)

pub total-le : (n : ℕ) (p : Bytes) (off : ℕ) → IsBytes p → total n p off ≤ n * 65535
unfolding total
total-le zero p off b = omega arith
total-le (suc n) p off b = omega (arith, total-le n p (off + 2) b, get16-lt p off b)

add_words-total :
    (n : ℕ) (p : Bytes) (off sum : ℕ)
    → sum + total n p off < 2 ^ 32
    → add_words n p off sum ≡ sum + total n p off
unfolding total add_words
add_words-total zero p off sum h = omega arith
add_words-total (suc n) p off sum h =
    omega (arith, add_words-total n p (off + 2) ((sum + get16 p off) % 2 ^ 32) (omega arith))

pub pos_or_zero : (t : ℕ) → (t ≡ 0) ⊎ (0 < t)
pos_or_zero t = omega arith

-- The sum with its carries added back in, below 2 ^ 16, and 0 only for the sum 0.
unfoldable pub folded : ℕ → ℕ
folded t = fold_again (fold_once t) % 2 ^ 16

pub folded_pos : (t : ℕ) → 0 < t → t < 2 ^ 32 → folded t ≡ (t - 1) % 65535 + 1
unfolding folded fold_once fold_again
folded_pos t h k = omega arith

pub folded-zero : folded 0 ≡ 0
unfolding folded fold_once fold_again
folded-zero = refl

-- On a buffer of even length whose words add up in 32 bits, the checksum is the complement.
pub checksum-even :
    (p : Bytes) (off nbytes sum : ℕ)
    → nbytes % 2 ≡ 0
    → sum + total (nbytes / 2) p off < 2 ^ 32
    → checksum p off nbytes sum ≡ 65535 - folded (sum + total (nbytes / 2) p off)
unfolding checksum folded
checksum-even p off nbytes sum even fits =
    rw (add_words-total (nbytes / 2) p off sum fits) (ground arith)

total-set16_below :
    (n : ℕ) (p : Bytes) (off k v : ℕ) → k + 2 ≤ off → total n (set16 p k v) off ≡ total n p off
unfolding total
total-set16_below zero p off k v h = refl
total-set16_below (suc n) p off k v h =
    omega
      (arith, get16-set16_ne p k v off (inr h), total-set16_below n p (off + 2) k v (omega arith))

-- Storing a word of the buffer changes the sum by the difference of the words.
pub total-set16 :
    (n i : ℕ) (p : Bytes) (off k v : ℕ)
    → i < n
    → k ≡ off + 2 * i
    → v < 2 ^ 16
    → total n (set16 p k v) off + get16 p k ≡ total n p off + v
unfolding total
total-set16 zero i p off k v h e f = absurd (omega arith)
total-set16 (suc n) zero p off k v h e f =
    let e' : off ≡ k = omega arith in
    rw e' (omega (arith, get16-set16_self p k v f, total-set16_below n p (k + 2) k v (omega arith)))
total-set16 (suc n) (suc i) p off k v h e f = omega (
  arith,
  get16-set16_ne p k v off (omega arith),
  total-set16 n i p (off + 2) k v (omega arith) (omega arith) f,
)

-- Zeroing a field and storing the old value back leaves the packet as it was.
pub set16_restore : (p : Bytes) (k : ℕ) → IsBytes p → set16 (set16 p k 0) k (get16 p k) ≡ p
unfolding set16 get16
set16_restore p k b = fun_ext λ j. ground (arith, b k, b (k + 1), b j)

-- On a buffer of odd length the last byte is added behind the folds.
pub checksum-odd :
    (p : Bytes) (off nbytes sum : ℕ)
    → nbytes % 2 ≡ 1
    → sum + total (nbytes / 2) p off < 2 ^ 32
    → checksum p off nbytes sum
      ≡ 65535 - (folded (sum + total (nbytes / 2) p off) + p (off + nbytes - 1)) % 2 ^ 16
unfolding checksum folded fold_once fold_again
checksum-odd p off nbytes sum odd fits =
    rw (add_words-total (nbytes / 2) p off sum fits) (ground arith)

add_words-set16_behind :
    (n : ℕ) (p : Bytes) (off sum k v : ℕ)
    → off + 2 * n ≤ k
    → add_words n (set16 p k v) off sum ≡ add_words n p off sum
unfolding add_words
add_words-set16_behind zero p off sum k v h = refl
add_words-set16_behind (suc n) p off sum k v h =
    rw (get16-set16_ne p k v off (omega arith))
      (add_words-set16_behind n p (off + 2) (u32 (sum + get16 p off)) k v (omega arith))

-- A store behind a buffer of even length does not change its checksum.
pub checksum-set16_behind :
    (p : Bytes) (off nbytes sum k v : ℕ)
    → nbytes % 2 ≡ 0
    → off + nbytes ≤ k
    → checksum (set16 p k v) off nbytes sum ≡ checksum p off nbytes sum
unfolding checksum
checksum-set16_behind p off nbytes sum k v even h =
    rw (even, add_words-set16_behind (nbytes / 2) p off sum k v (omega arith))
