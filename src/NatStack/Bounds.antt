-- ===== src/NatStack/Bounds.antt =====
-- `nat_hash` stays inside the table of 256 lists.
use native.Mathlib.Omega.{arith}
use net_working_mini_net.Base.{ℕ, ◌<◌, ◌%◌, ◌≡◌}
use net_working_mini_net.Hash.{hash_8bits, bytes32, bytes16}
use net_working_mini_net.Hash.Bounds.{bit_xor-lt, hash8-lt}
use net_working_mini_net.NatStack.{nat_hash}

-- For every address and port, `nat_hash` is an index of the table of 256 lists, so the `% HASH_8BITS` of
-- nat_new_2.c changes nothing.
pub nat_hash-index :
    (addr port : ℕ)
    → (nat_hash addr port < hash_8bits) × (nat_hash addr port % hash_8bits ≡ nat_hash addr port)
unfolding nat_hash
nat_hash-index addr port =
    let small = bit_xor-lt 8 _ _ (hash8-lt (bytes32 addr)) (hash8-lt (bytes16 port)) in
    (small, omega (arith, small))
