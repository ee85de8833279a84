-- ===== src/NatStack/Linear/Invariant.antt =====
-- The mappings of a table: their ports are taken in the pool, and no two share one.
use mathlib.Core.Option
use net_working_mini_net.Base.{
  ℕ, zero, suc, ◌^◌, ◌≤◌, ◌<◌, ◌≡◌, ◌≢◌, refl, ap, sym, ◌∙◌, inl, inr, Bool, not, true, false, ◌&&◌,
  some, List, [], ◌∷◌, arith, ◌==◌, find, All, find-ne-none, or_else, htons, htons-injective,
  Bool-cases,
}
use net_working_mini_net.Hash.{hash_8bits}
use net_working_mini_net.Buckets.{first_in, entries}
use net_working_mini_net.Buckets.Search.{first_in-find}
use net_working_mini_net.Buckets.Removal.{Unique}
use net_working_mini_net.NatStack.{Mapping, Table, has_external_port, has_internal}
use net_working_mini_net.NatStack.Ports.{Pool, nat_port_min, nat_port_max, set_port}
use net_working_mini_net.NatStack.Linear.{search_external, search_internal}

-- All mappings, in the order in which the lookups meet them.
abbrev pub mappings : Table → List Mapping
mappings t = entries hash_8bits 0 t.nat_mapping_list

-- The answer of `assign_external_port` when no port is free.
abbrev pub no_port : ℕ
no_port = 65535

-- The port of a mapping is taken in the pool, or the mapping was made when no port was free.
pub data Holds (pool : Pool) (m : Mapping) : Type 0 where
  port_taken :
      (port : ℕ)
      → nat_port_min ≤ port
      → port < nat_port_max
      → m.external_port ≡ htons port
      → pool port ≢ 0
      → Holds pool m
  without_port : m.external_port ≡ no_port → Holds pool m

-- Two mappings with one port that was assigned.
abbrev pub same_port : Mapping → Mapping → Bool
same_port a b = a.external_port == b.external_port && not (a.external_port == no_port)

-- The fields that go into packets fit them.
pub record IsMapping (m : Mapping) : Type 0 where
  pub internal_ip : m.internal_ip < 2 ^ 32
  pub internal_port : m.internal_port < 2 ^ 16
  pub external_port : m.external_port < 2 ^ 16

pub record WellFormed (t : Table) : Type 0 where
  pub fit : All IsMapping (mappings t)
  pub hold : All (Holds t.assigned_ports) (mappings t)
  pub unique : Unique same_port (mappings t)

pub same_port_comm : (a b : Mapping) → same_port a b ≡ same_port b a
same_port_comm a b = ground arith

pub Holds-set_port :
    (pool : Pool) (port : ℕ) (m : Mapping) → Holds pool m → Holds (set_port pool port 1) m
unfolding set_port
Holds-set_port pool port m (port_taken p lo hi e taken) = port_taken p lo hi e (ground arith)
Holds-set_port pool port m (without_port e) = without_port e

-- A port that is free in the pool is not the port of a mapping.
pub fresh_port :
    (pool : Pool) (port : ℕ) (new m : Mapping)
    → port < nat_port_max
    → pool port ≡ 0
    → new.external_port ≡ htons port
    → Holds pool m
    → same_port new m ≡ false
fresh_port pool port new m hi free e (port_taken p lo hi' e' taken) =
    elim (Bool-cases (new.external_port == m.external_port)) [
      | inl same ↦
          let eq : port ≡ p = htons-injective port p (omega arith) (omega arith) (ground arith) in
          absurd (taken (ap pool (sym eq) ∙ free))
      | inr ne ↦ rw ne
    ]
fresh_port pool port new m hi free e (without_port e') = ground arith

pub search_external-first_in :
    (left i : ℕ) (lists : ℕ → List Mapping) (port : ℕ)
    → search_external left i lists port ≡ first_in (has_external_port port) left i lists
unfolding search_external first_in
search_external-first_in zero i lists port = refl
search_external-first_in (suc left) i lists port =
    ap (or_else (find (has_external_port port) (lists i)))
      (search_external-first_in left (suc i) lists port)

pub search_internal-first_in :
    (left i : ℕ) (lists : ℕ → List Mapping) (ip port : ℕ)
    → search_internal left i lists ip port ≡ first_in (has_internal ip port) left i lists
unfolding search_internal first_in
search_internal-first_in zero i lists ip port = refl
search_internal-first_in (suc left) i lists ip port =
    ap (or_else (find (has_internal ip port) (lists i)))
      (search_internal-first_in left (suc i) lists ip port)

-- The two searches find the first mapping with the port, or with the internal address and port.
pub search_external-find :
    (t : Table) (port : ℕ)
    → search_external hash_8bits 0 t.nat_mapping_list port
      ≡ find (has_external_port port) (mappings t)
search_external-find t port =
    search_external-first_in hash_8bits 0 t.nat_mapping_list port
    ∙ first_in-find (has_external_port port) hash_8bits 0 t.nat_mapping_list

pub search_internal-find :
    (t : Table) (ip port : ℕ)
    → search_internal hash_8bits 0 t.nat_mapping_list ip port
      ≡ find (has_internal ip port) (mappings t)
search_internal-find t ip port =
    search_internal-first_in hash_8bits 0 t.nat_mapping_list ip port
    ∙ first_in-find (has_internal ip port) hash_8bits 0 t.nat_mapping_list

-- A mapping that some search finds is the one that its port finds.
pub find_by_port :
    (q : Mapping → Bool) (xs : List Mapping) (m : Mapping)
    → Unique same_port xs
    → find q xs ≡ some m
    → m.external_port ≢ no_port
    → find (has_external_port m.external_port) xs ≡ some m
unfolding has_external_port
find_by_port q [] m u h ne = absurd (Option.none-ne-some m h)
find_by_port q (x ∷ xs) m u h ne = elim (Bool-cases (q x)) [
  | inl t ↦
      let s : some x ≡ some m = rw t at h in
      let c : x ≡ m = cc in
      let e : (x.external_port == m.external_port) ≡ true = ground arith in rw e s
  | inr f ↦ elim (Bool-cases (x.external_port == m.external_port)) [
    | inl e ↦ absurd (find-ne-none q (same_port x) xs m (rw f at h) (ground arith) u.0)
    | inr e ↦ rw e (find_by_port q xs m u.1 (rw f at h) ne)
  ]
]
