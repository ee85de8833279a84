-- ===== src/NatStack/Hashed/Twins/Insert.antt =====
-- `nat_insert_mapping` of nat_new_2.c adds a pair of twins.
use net_working_mini_net.Base.{
  ℕ, ◌+◌, ◌^◌, ◌≤◌, ◌<◌, ◌≡◌, ◌≢◌, refl, ap, inl, inr, false, none, arith, ◌==◌, find, All-map,
  find-none, htons, htons-lt, htons-injective, Bool-cases,
}
use net_working_mini_net.NatStack.{Mapping, Table, has_external_port}
use net_working_mini_net.NatStack.Ports.{
  Pool, nat_port_min, nat_port_max, set_port, assign_external_port_incl,
}
use net_working_mini_net.NatStack.Ports.Assign.{
  Assigned, assigned, exhausted, assign_external_port_incl-Assigned,
}
use net_working_mini_net.NatStack.Hashed.{entry_for, nat_insert_mapping}
use net_working_mini_net.NatStack.Hashed.Twins.{IsStored, Twin, HasTwin, WellFormed}
use net_working_mini_net.NatStack.Hashed.Twins.Pair.{
  new_entry, inserted, lookup-inserted_new, inserted-WellFormed,
}

module _ (t : Table) (w : WellFormed t) where
  -- No mapping has a port that is free in the pool.
  port_unused :
      (p : ℕ)
      → nat_port_min ≤ p
      → p ≤ nat_port_max
      → t.assigned_ports p ≡ 0
      → (i : ℕ) → find (has_external_port (htons p)) (t.nat_mapping_list i) ≡ none
  unfolding has_external_port
  port_unused p lo hi free i = find-none (has_external_port (htons p)) (t.nat_mapping_list i) (
      All-map (IsStored t.assigned_ports) (λ m. has_external_port (htons p) m ≡ false)
        (t.nat_mapping_list i) other (w.stored i))
    where
      other : (m : Mapping) → IsStored t.assigned_ports m → (m.external_port == htons p) ≡ false
      other m is = elim (Bool-cases (m.external_port == htons p)) [
        | inl e ↦ absurd (is.held p hi lo (ground arith) free)
        | inr e ↦ e
      ]

  Assigned-HasTwin :
      (now addr addr' ip iport : ℕ) (r : ℕ × Pool)
      → Assigned t.assigned_ports nat_port_min (nat_port_max + 1) 0 r
      → HasTwin
          (inserted now addr addr' t ip iport r.0 r.1)
          (new_entry now addr addr' t ip iport r.0 r.1)
  unfolding new_entry
  Assigned-HasTwin now addr addr' ip iport r (assigned p lo hi free _ e) =
      let same : r.0 ≡ p = ap (λ (x : ℕ × Pool). x.0) e in
      rw same (λ ne.
        let (a, found, i, j) =
          lookup-inserted_new now addr addr' t ip iport p r.1
            (port_unused p lo (omega arith) free) in
        record { copy = a; found = found; same_ip = i; same_port = j })
  Assigned-HasTwin now addr addr' ip iport r (exhausted _ e) =
      let none_left : r.0 ≡ 0 = ap (λ (x : ℕ × Pool). x.0) e in
      rw none_left (λ ne. absurd (ne (unfold htons in refl)))

  module _ (now addr addr' ip iport : ℕ) (fits_ip : ip < 2 ^ 32) (fits_port : iport < 2 ^ 16) where
    entry_for-IsStored :
        (p : ℕ) (pool : Pool)
        → ((q : ℕ) → q ≤ nat_port_max → nat_port_min ≤ q → htons p ≡ htons q → pool q ≢ 0)
        → IsStored pool (entry_for t now addr ip iport p)
    entry_for-IsStored p pool h = record {
      internal_ip = fits_ip;
      internal_port = fits_port;
      external_port = htons-lt p;
      held = h;
    }

    Assigned-IsStored :
        (r : ℕ × Pool)
        → Assigned t.assigned_ports nat_port_min (nat_port_max + 1) 0 r
        → ((m : Mapping) → IsStored t.assigned_ports m → IsStored r.1 m)
          × IsStored r.1 (entry_for t now addr ip iport r.0)
    Assigned-IsStored r (assigned p lo hi free _ e) =
        let same : r.0 ≡ p = ap (λ (x : ℕ × Pool). x.0) e in
        let marked : r.1 ≡ set_port t.assigned_ports p 1 = ap (λ (x : ℕ × Pool). x.1) e in
        let pool = set_port t.assigned_ports p 1 in
        rw (same, marked) (grows p, entry_for-IsStored p pool (λ q h l k. taken p q hi h k))
      where
        grows :
            (p : ℕ) (m : Mapping)
            → IsStored t.assigned_ports m
            → IsStored (set_port t.assigned_ports p 1) m
        grows p m is = record {
          internal_ip = is.internal_ip;
          internal_port = is.internal_port;
          external_port = is.external_port;
          held = λ q h l k z. is.held q h l k (unfold set_port in ground arith);
        }

        taken :
            (p q : ℕ)
            → p < nat_port_max + 1
            → q ≤ nat_port_max
            → htons p ≡ htons q
            → set_port t.assigned_ports p 1 q ≢ 0
        taken p q hp hq k z =
            let e : p ≡ q = htons-injective p q (omega arith) (omega arith) k in
            unfold set_port in ground arith
    Assigned-IsStored r (exhausted _ e) =
        let none_left : r.0 ≡ 0 = ap (λ (x : ℕ × Pool). x.0) e in
        let kept : r.1 ≡ t.assigned_ports = ap (λ (x : ℕ × Pool). x.1) e in
        rw (none_left, kept)
          (λ m is. is, entry_for-IsStored 0 t.assigned_ports (λ q h l k. absurd (not_zero q h l k)))
      where
        not_zero : (q : ℕ) → q ≤ nat_port_max → nat_port_min ≤ q → htons 0 ≡ htons q → ⊥
        not_zero q h l k =
            let e : 0 ≡ q = htons-injective 0 q (omega arith) (omega arith) k in omega arith

    -- An insertion keeps every mapping with its twin, and adds a pair of twins.
    pub nat_insert_mapping-WellFormed : WellFormed (nat_insert_mapping now addr addr' t ip iport).1
    unfolding nat_insert_mapping inserted
    nat_insert_mapping-WellFormed =
        let r = assign_external_port_incl t.assigned_ports in
        let a = assign_external_port_incl-Assigned t.assigned_ports in
        let (grows, is) = Assigned-IsStored r a in
        inserted-WellFormed now addr addr' t ip iport r.0 r.1 w grows (unfold new_entry in is)
          (Assigned-HasTwin now addr addr' ip iport r a)

  -- The new mapping and its port; if the pool had one, the reply finds the internal side.
  pub nat_insert_mapping-found :
      (now addr addr' ip iport : ℕ)
      → let r = nat_insert_mapping now addr addr' t ip iport in
        (r.0.internal_ip ≡ ip)
        × (r.0.internal_port ≡ iport)
        × (r.0.external_port ≡ htons (assign_external_port_incl t.assigned_ports).0)
        × (r.0.external_port ≢ 0 → Twin r.1 r.0)
  unfolding nat_insert_mapping inserted new_entry
  nat_insert_mapping-found now addr addr' ip iport = (
    refl,
    refl,
    refl,
    Assigned-HasTwin now addr addr' ip iport (assign_external_port_incl t.assigned_ports)
        (assign_external_port_incl-Assigned t.assigned_ports),
  )
