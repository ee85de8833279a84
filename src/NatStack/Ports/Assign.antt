-- ===== src/NatStack/Ports/Assign.antt =====
-- The port that is assigned, on every state of the pool.
use net_working_mini_net.Base.{
  ℕ, zero, suc, ◌+◌, ◌-◌, ◌%◌, ◌^◌, ◌≤◌, ◌<◌, ◌≡◌, ◌≢◌, ◌⊎◌, inl, inr, arith, ◌==◌, Bool-cases,
  false,
}
use net_working_mini_net.NatStack.Ports.{
  Pool, nat_port_min, nat_port_max, set_port, scan_ports, assign_external_port,
  assign_external_port_incl,
}

-- `i` is the first free port of `lo ... hi - 1`, or `hi` if all are taken.
pub record IsFirstFree (pool : Pool) (lo hi i : ℕ) : Type 0 where
  pub from_lo : lo ≤ i
  pub to_hi : i ≤ hi
  pub taken : (k : ℕ) → lo ≤ k → k < i → pool k ≢ 0
  pub free : i < hi → pool i ≡ 0

le_cases : (i k : ℕ) → i ≤ k → (i ≡ k) ⊎ (suc i ≤ k)
le_cases i k h = omega arith

first-taken :
    (pool : Pool) (i k : ℕ) → (pool i == 0) ≡ false → i ≤ k → (suc i ≤ k → pool k ≢ 0) → pool k ≢ 0
first-taken pool i k z h rest = elim (le_cases i k h) [
  | inl e ↦ rw (← e) (ground arith)
  | inr l ↦ rest l
]

pub scan_ports-IsFirstFree :
    (pool : Pool) (left i hi : ℕ) → i + left ≡ hi → IsFirstFree pool i hi (scan_ports pool left i)
unfolding scan_ports
scan_ports-IsFirstFree pool zero i hi e = record {
  from_lo = omega arith;
  to_hi = omega arith;
  taken = λ k h j. absurd (omega arith);
  free = λ h. absurd (omega arith);
}
scan_ports-IsFirstFree pool (suc left) i hi e = elim (Bool-cases (pool i == 0)) [
  | inl z ↦ rw z (record {
    from_lo = omega arith;
    to_hi = omega arith;
    taken = λ k h j. absurd (omega arith);
    free = λ h. ground arith;
  })
  | inr z ↦
      let r = scan_ports-IsFirstFree pool left (suc i) hi (omega arith) in
      rw z (record {
        from_lo = omega (arith, r.from_lo);
        to_hi = r.to_hi;
        taken = λ k h j. first-taken pool i k z h (λ h'. r.taken k h' j);
        free = r.free;
      })
]

-- What an assignment does: the least free port from `lo` on and below `hi` is marked and returned, and
-- no other port changes; or every one of them is taken, the pool stays, and `full` is returned.
pub data Assigned (pool : Pool) (lo hi full : ℕ) (r : ℕ × Pool) : Type 0 where
  assigned :
      (port : ℕ)
      → lo ≤ port
      → port < hi
      → pool port ≡ 0
      → ((k : ℕ) → lo ≤ k → k < port → pool k ≢ 0)
      → r ≡ (port, set_port pool port 1)
      → Assigned pool lo hi full r
  exhausted :
      ((k : ℕ) → lo ≤ k → k < hi → pool k ≢ 0) → r ≡ (full, pool) → Assigned pool lo hi full r

-- `assign_external_port` assigns the least free port of 12345 ... 23455, and answers 65535 if there is
-- none.
pub assign_external_port-Assigned :
    (pool : Pool) → Assigned pool nat_port_min nat_port_max (2 ^ 16 - 1) (assign_external_port pool)
unfolding assign_external_port
assign_external_port-Assigned pool =
    let i = scan_ports pool (nat_port_max - nat_port_min) nat_port_min in
    let f =
      scan_ports-IsFirstFree pool (nat_port_max - nat_port_min) nat_port_min nat_port_max
        (omega arith) in
    elim (Bool-cases (i == nat_port_max)) [
      | inl e ↦
          let full : i ≡ nat_port_max = ground arith in
          exhausted (λ k lo hi. f.taken k lo (omega arith)) (rw e)
      | inr e ↦
          let below : i < nat_port_max = let le = f.to_hi in ground arith in
          let small : i % 2 ^ 16 ≡ i = omega arith in
          assigned i f.from_lo below (f.free below) f.taken (rw e (rw small))
    ]

-- The variant of nat_new_2.c assigns the least free port of 12345 ... 23456, and answers 0 if there is
-- none.
pub assign_external_port_incl-Assigned :
    (pool : Pool) → Assigned pool nat_port_min (nat_port_max + 1) 0 (assign_external_port_incl pool)
unfolding assign_external_port_incl
assign_external_port_incl-Assigned pool =
    let i = scan_ports pool (nat_port_max + 1 - nat_port_min) nat_port_min in
    let f =
      scan_ports-IsFirstFree pool (nat_port_max + 1 - nat_port_min) nat_port_min (nat_port_max + 1)
        (omega arith) in
    elim (Bool-cases (i == nat_port_max + 1)) [
      | inl e ↦
          let full : i ≡ nat_port_max + 1 = ground arith in
          exhausted (λ k lo hi. f.taken k lo (omega arith)) (rw e)
      | inr e ↦
          let below : i < nat_port_max + 1 = let le = f.to_hi in ground arith in
          assigned i f.from_lo below (f.free below) f.taken (rw e)
    ]
