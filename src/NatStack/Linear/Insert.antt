-- ===== src/NatStack/Linear/Insert.antt =====
-- `nat_insert_mapping`: the table with the new mapping.
use net_working_mini_net.Base.{
  ℕ, suc, ◌^◌, ◌<◌, ◌≡◌, refl, ap, false, none, some, List, ◌∷◌, ◌++◌, arith, find, All-insert,
  All-map, find-none, htons, htons-lt, length, length-append,
}
use net_working_mini_net.Hash.{hash_8bits}
use net_working_mini_net.Buckets.{add_tail}
use net_working_mini_net.Buckets.Search.{entries-add_tail, find-hit}
use net_working_mini_net.Buckets.Removal.{Unique-insert}
use net_working_mini_net.NatStack.{Mapping, Table, zero_connection, has_internal}
use net_working_mini_net.NatStack.Ports.{
  Pool, nat_port_min, nat_port_max, set_port, assign_external_port,
}
use net_working_mini_net.NatStack.Ports.Assign.{
  Assigned, assigned, exhausted, assign_external_port-Assigned,
}
use net_working_mini_net.NatStack.Linear.{nat_insert_mapping}
use net_working_mini_net.NatStack.Linear.Invariant.{
  mappings, no_port, Holds, port_taken, without_port, same_port, same_port_comm, IsMapping,
  WellFormed, Holds-set_port, fresh_port,
}

-- A mapping added to a table, with the pool that it leaves.
abbrev with_mapping : Table → Mapping → Pool → Table
with_mapping t m pool = record t {
  nat_mapping_list = add_tail t.nat_mapping_list 0 m;
  assigned_ports = pool;
}

with_mapping-WellFormed :
    (t : Table) (m : Mapping) (pool : Pool)
    → IsMapping m
    → Holds pool m
    → ((n : Mapping) → Holds t.assigned_ports n → Holds pool n)
    → ((n : Mapping) → Holds t.assigned_ports n → same_port m n ≡ false)
    → WellFormed t
    → WellFormed (with_mapping t m pool)
with_mapping-WellFormed t m pool is holds grows fresh w =
    let (xs, ys, old, new) = entries-add_tail hash_8bits 0 t.nat_mapping_list m (omega arith) in
    let held = All-map (Holds t.assigned_ports) (Holds pool) (xs ++ ys) grows (rw old at w.hold) in
    let apart =
      All-map (Holds t.assigned_ports) (λ n. same_port m n ≡ false) (xs ++ ys) fresh
        (rw old at w.hold) in
    record {
      fit = rw new (All-insert IsMapping xs m ys (rw old at w.fit) is);
      hold = rw new (All-insert (Holds pool) xs m ys held holds);
      unique = rw new (
          Unique-insert same_port same_port_comm xs m ys (rw old at w.unique)
            (find-none (same_port m) (xs ++ ys) apart));
    }

module _ (inet_addr : List ℕ → ℕ) (now addr : ℕ) (t : Table) (ip port : ℕ) where
  -- The new mapping with the port `p`.
  abbrev pub mapping_with : ℕ → Mapping
  mapping_with p = record {
    addr = addr;
    internal_ip = ip;
    external_ip = inet_addr t.external_iface.ip_str;
    internal_port = port;
    external_port = htons p;
    update_time = now;
    conn = zero_connection;
  }

  -- What an insertion gives, with a port of the pool or without one.
  data Inserted (r : Mapping × Table) : Type 0 where
    inserted :
        (p : ℕ) (pool : Pool)
        → Assigned t.assigned_ports nat_port_min nat_port_max no_port (p, pool)
        → r ≡ (mapping_with p, with_mapping t (mapping_with p) pool)
        → Inserted r

  nat_insert_mapping-Inserted : Inserted (nat_insert_mapping inet_addr now addr t 0 ip port)
  unfolding nat_insert_mapping
  nat_insert_mapping-Inserted =
      let r = assign_external_port t.assigned_ports in
      inserted r.0 r.1 (assign_external_port-Assigned t.assigned_ports) refl

  Inserted-WellFormed :
      (r : Mapping × Table)
      → Inserted r
      → ip < 2 ^ 32
      → port < 2 ^ 16
      → WellFormed t
      → WellFormed r.1
  Inserted-WellFormed r (inserted p pool (assigned q lo hi free _ e) f) hi' hp w =
      let same : p ≡ q = ap (λ (x : ℕ × Pool). x.0) e in
      let marked : pool ≡ set_port t.assigned_ports q 1 = ap (λ (x : ℕ × Pool). x.1) e in
      let g = ap (λ (x : Mapping × Table). x.1) f in
      rw (g, same, marked)
        (with_mapping-WellFormed t (mapping_with q) (set_port t.assigned_ports q 1)
          (record { internal_ip = hi'; internal_port = hp; external_port = htons-lt q })
          (port_taken q lo hi refl (unfold set_port in ground arith))
          (λ n. Holds-set_port t.assigned_ports q n)
          (λ n. fresh_port t.assigned_ports q (mapping_with q) n hi free refl) w)
  Inserted-WellFormed r (inserted p pool (exhausted _ e) f) hi' hp w =
      let same : p ≡ no_port = ap (λ (x : ℕ × Pool). x.0) e in
      let kept : pool ≡ t.assigned_ports = ap (λ (x : ℕ × Pool). x.1) e in
      let g = ap (λ (x : Mapping × Table). x.1) f in
      rw (g, same, kept)
        (with_mapping-WellFormed t (mapping_with no_port) t.assigned_ports
          (record { internal_ip = hi'; internal_port = hp; external_port = htons-lt no_port })
          (without_port (unfold htons in refl)) (λ n h. h) (λ n h. unfold htons in ground arith) w)

  -- An insertion keeps the table well-formed, also when no port is free.
  pub nat_insert_mapping-WellFormed :
      ip < 2 ^ 32
      → port < 2 ^ 16
      → WellFormed t
      → WellFormed (nat_insert_mapping inet_addr now addr t 0 ip port).1
  nat_insert_mapping-WellFormed =
      Inserted-WellFormed (nat_insert_mapping inet_addr now addr t 0 ip port)
        nat_insert_mapping-Inserted

  -- An insertion adds one mapping.
  pub nat_insert_mapping-length :
      length (mappings (nat_insert_mapping inet_addr now addr t 0 ip port).1)
      ≡ suc (length (mappings t))
  unfolding nat_insert_mapping
  nat_insert_mapping-length =
      let m = mapping_with (assign_external_port t.assigned_ports).0 in
      let (xs, ys, old, new) = entries-add_tail hash_8bits 0 t.nat_mapping_list m (omega arith) in
      omega (arith, ap length new, ap length old, length-append xs ys, length-append xs (m ∷ ys))

  -- Where the internal address and port had no mapping, they are found with the port that was assigned.
  pub nat_insert_mapping-found :
      find (has_internal ip port) (mappings t) ≡ none
      → find (has_internal ip port) (mappings (nat_insert_mapping inet_addr now addr t 0 ip port).1)
        ≡ some (mapping_with (assign_external_port t.assigned_ports).0)
  unfolding nat_insert_mapping
  nat_insert_mapping-found out =
      let m = mapping_with (assign_external_port t.assigned_ports).0 in
      let (xs, ys, old, new) = entries-add_tail hash_8bits 0 t.nat_mapping_list m (omega arith) in
      rw new (
        find-hit (has_internal ip port) xs m ys (unfold has_internal in ground arith)
          (rw old at out))
