-- ===== src/Packet/Fields.antt =====
-- Loads and stores of fields at different offsets.
use net_working_mini_net.Base.{ℕ, ◌+◌, ◌^◌, ◌≤◌, ◌<◌, ◌≡◌, ◌⊎◌, arith}
use net_working_mini_net.Packet.{Bytes, get16, set16, get32, set32}

-- Every cell holds a byte.
abbrev pub IsBytes : Bytes → Type 0
IsBytes p = (k : ℕ) → p k < 256

pub set16_at : (p : Bytes) (o v k : ℕ) → (k < o) ⊎ (o + 2 ≤ k) → set16 p o v k ≡ p k
unfolding set16
set16_at p o v k h = ground arith

pub set32_at : (p : Bytes) (o v k : ℕ) → (k < o) ⊎ (o + 4 ≤ k) → set32 p o v k ≡ p k
unfolding set32
set32_at p o v k h = ground arith

pub get16-set16_self : (p : Bytes) (o v : ℕ) → v < 2 ^ 16 → get16 (set16 p o v) o ≡ v
unfolding get16 set16
get16-set16_self p o v h = ground arith

pub get16-set16_ne :
    (p : Bytes) (o v k : ℕ) → (k + 2 ≤ o) ⊎ (o + 2 ≤ k) → get16 (set16 p o v) k ≡ get16 p k
unfolding get16
get16-set16_ne p o v k h = ground (arith, set16_at p o v k, set16_at p o v (k + 1))

pub get16-set32_ne :
    (p : Bytes) (o v k : ℕ) → (k + 2 ≤ o) ⊎ (o + 4 ≤ k) → get16 (set32 p o v) k ≡ get16 p k
unfolding get16
get16-set32_ne p o v k h = ground (arith, set32_at p o v k, set32_at p o v (k + 1))

pub get32-set32_self : (p : Bytes) (o v : ℕ) → v < 2 ^ 32 → get32 (set32 p o v) o ≡ v
unfolding get32 set32
get32-set32_self p o v h = ground arith

pub get32-set16_ne :
    (p : Bytes) (o v k : ℕ) → (k + 4 ≤ o) ⊎ (o + 2 ≤ k) → get32 (set16 p o v) k ≡ get32 p k
unfolding get32
get32-set16_ne p o v k h = ground (
  arith,
  set16_at p o v k,
  set16_at p o v (k + 1),
  set16_at p o v (k + 2),
  set16_at p o v (k + 2 + 1),
)

pub get32-set32_ne :
    (p : Bytes) (o v k : ℕ) → (k + 4 ≤ o) ⊎ (o + 4 ≤ k) → get32 (set32 p o v) k ≡ get32 p k
unfolding get32
get32-set32_ne p o v k h = ground (
  arith,
  set32_at p o v k,
  set32_at p o v (k + 1),
  set32_at p o v (k + 2),
  set32_at p o v (k + 2 + 1),
)

pub get16-lt : (p : Bytes) (o : ℕ) → IsBytes p → get16 p o < 2 ^ 16
unfolding get16
get16-lt p o b = omega (arith, b o, b (o + 1))

pub get32-lt : (p : Bytes) (o : ℕ) → IsBytes p → get32 p o < 2 ^ 32
unfolding get32
get32-lt p o b = omega (arith, b o, b (o + 1), b (o + 2), b (o + 2 + 1))

pub set16-IsBytes : (p : Bytes) (o v : ℕ) → IsBytes p → IsBytes (set16 p o v)
unfolding set16
set16-IsBytes p o v b k = ground (arith, b k)

pub set32-IsBytes : (p : Bytes) (o v : ℕ) → IsBytes p → IsBytes (set32 p o v)
unfolding set32
set32-IsBytes p o v b k = ground (arith, b k)
