-- ===== src/Hash/Bounds.antt =====
-- Bounds on the hashes: every result is an index of a table of 256 lists.
use Prim.Native.Nat.{bit_xor, bit_xor-bitwise, digits, differ}
use native.Mathlib.Nat.{pow-suc}
use net_working_mini_net.Base.{ℕ, zero, suc, ◌/◌, ◌%◌, ◌^◌, ◌≤◌, ◌<◌, ◌≡◌, List, [], ◌∷◌, arith, u8}
use net_working_mini_net.Hash.{hash_8bits, hash8, hash8_loop}

differ-lt : (x y : ℕ) → x < 2 → y < 2 → differ x y < 2
differ-lt zero y hx hy = hy
differ-lt (suc x) zero hx hy = hx
differ-lt (suc x) (suc y) hx hy = differ-lt x y (omega arith) (omega arith)

digits-lt : (n k a b : ℕ) → a ≤ n → a < 2 ^ k → b < 2 ^ k → digits (λ b. b) differ n a b < 2 ^ k
digits-lt zero k a b p ha hb = hb
digits-lt (suc n) k zero b p ha hb = hb
digits-lt (suc n) zero (suc a) b p ha hb = absurd (omega arith)
digits-lt (suc n) (suc k) (suc a) b p ha hb = omega (
  arith,
  pow-suc 2 k,
  differ-lt (suc a % 2) (b % 2) (omega arith) (omega arith),
  digits-lt n k (suc a / 2) (b / 2) (omega arith) (omega (arith, pow-suc 2 k))
      (omega (arith, pow-suc 2 k)),
)

-- The exclusive or of two numbers of k bits has k bits.
pub bit_xor-lt : (k a b : ℕ) → a < 2 ^ k → b < 2 ^ k → bit_xor a b < 2 ^ k
bit_xor-lt k a b ha hb = simp bit_xor-bitwise (digits-lt a k a b (omega arith) ha hb)

hash8_loop-lt : (r : ℕ) (buf : List ℕ) → r < 256 → hash8_loop r buf < 256
unfolding hash8_loop
hash8_loop-lt r [] h = h
hash8_loop-lt r (c ∷ buf) h = hash8_loop-lt (u8 (bit_xor r c)) buf (omega arith)

-- The hash of a buffer is a byte.
pub hash8-lt : (buf : List ℕ) → hash8 buf < hash_8bits
unfolding hash8
hash8-lt buf = hash8_loop-lt 0 buf (omega arith)

-- On bytes the cast to `u8` loses nothing: one round is the exclusive or itself.
pub hash8_round : (r c : ℕ) → r < 256 → c < 256 → bit_xor r c % 2 ^ 8 ≡ bit_xor r c
hash8_round r c hr hc = omega (arith, bit_xor-lt 8 r c hr hc)
