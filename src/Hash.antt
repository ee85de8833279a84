-- ===== src/Hash.antt =====
-- nat_stack/include/hash.h: the exclusive-or hashes. A buffer is the list of its bytes; the
-- `u8` result keeps eight bits, whatever the signedness of `char`.
pub mod Bounds
use Prim.Native.Nat.{bit_xor}
use net_working_mini_net.Base.{ℕ, ◌+◌, ◌*◌, ◌/◌, ◌%◌, ◌^◌, List, [], ◌∷◌, u8, u16}

abbrev pub hash_8bits : ℕ
hash_8bits = 256

hash8_loop : ℕ → List ℕ → ℕ
hash8_loop result [] = result
hash8_loop result (c ∷ buf) = hash8_loop (u8 (bit_xor result c)) buf

-- `hash8(buf, len)`, at the `len` bytes of `buf`.
unfoldable pub hash8 : List ℕ → ℕ
unfolding hash8_loop
hash8 buf = hash8_loop 0 buf

-- Two bytes at a time, and the last byte of a buffer of odd length.
hash16_loop : ℕ → List ℕ → ℕ
hash16_loop result [] = result
hash16_loop result (c ∷ []) = u16 (bit_xor result c)
hash16_loop result (c ∷ d ∷ buf) = hash16_loop (u16 (bit_xor result (c + d * 256))) buf

unfoldable pub hash16 : List ℕ → ℕ
unfolding hash16_loop
hash16 buf = hash16_loop 0 buf

-- The bytes of a `u32` and of a `u16` in the memory of a little-endian host.
abbrev pub bytes32 : ℕ → List ℕ
bytes32 v = (v % 256) ∷ (v / 2 ^ 8 % 256) ∷ (v / 2 ^ 16 % 256) ∷ (v / 2 ^ 24 % 256) ∷ []

abbrev pub bytes16 : ℕ → List ℕ
bytes16 v = (v % 256) ∷ (v / 256 % 256) ∷ []
