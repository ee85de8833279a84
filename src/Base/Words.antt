-- ===== src/Base/Words.antt =====
-- Machine integers of C: casts, and the byte-order conversions of a little-endian host.
use Prim.Native.Nat.{ℕ, ◌+◌, ◌*◌, ◌/◌, ◌%◌, ◌^◌, ◌<◌}
use mathlib.Core.Path.{◌≡◌}
use native.Mathlib.Omega.{arith}

abbrev pub u8 : ℕ → ℕ
u8 n = n % 2 ^ 8

abbrev pub u16 : ℕ → ℕ
u16 n = n % 2 ^ 16

abbrev pub u32 : ℕ → ℕ
u32 n = n % 2 ^ 32

-- The documented meaning of `htons` and `ntohs` on a little-endian host: the two bytes change places.
unfoldable pub htons : ℕ → ℕ
htons v = v % 256 * 256 + v / 256 % 256

-- `htonl` and `ntohl`: the four bytes in reverse order.
unfoldable pub htonl : ℕ → ℕ
htonl v = v % 256 * 2 ^ 24 + v / 2 ^ 8 % 256 * 2 ^ 16 + v / 2 ^ 16 % 256 * 2 ^ 8 + v / 2 ^ 24 % 256

pub htons-lt : (v : ℕ) → htons v < 2 ^ 16
unfolding htons
htons-lt v = omega arith

pub htons-htons : (v : ℕ) → v < 2 ^ 16 → htons (htons v) ≡ v
unfolding htons
htons-htons v h = omega arith

pub htonl-htonl : (v : ℕ) → v < 2 ^ 32 → htonl (htonl v) ≡ v
unfolding htonl
htonl-htonl v h = omega arith

pub htons-injective : (a b : ℕ) → a < 2 ^ 16 → b < 2 ^ 16 → htons a ≡ htons b → a ≡ b
unfolding htons
htons-injective a b ha hb e = omega arith

pub htonl-injective : (a b : ℕ) → a < 2 ^ 32 → b < 2 ^ 32 → htonl a ≡ htonl b → a ≡ b
htonl-injective a b ha hb e = cc (htonl-htonl a ha, htonl-htonl b hb)
