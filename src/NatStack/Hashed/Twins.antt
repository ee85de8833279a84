-- ===== src/NatStack/Hashed/Twins.antt =====
-- The two copies of every mapping of nat_new_2.c: the one that a packet from inside finds has a twin
-- that the reply finds.
pub mod Pair
pub mod Insert
pub mod Touch
pub mod RoundTrip
use mathlib.Core.Option
use mathlib.Core.Path.{subst}
use net_working_mini_net.Base.{
  ℕ, zero, suc, ◌+◌, ◌^◌, ◌≤◌, ◌<◌, ◌≡◌, ◌≢◌, refl, ap, sym, ◌∙◌, inl, inr, Bool, true, false, ◌&&◌,
  map, Option, none, some, List, [], ◌∷◌, ◌++◌, arith, ◌==◌, ==_refl, find, All, All-append,
  All-map, All-find, find-none, find-append, find-append_some, find-passes, htons, htons-lt,
  htons-injective, Bool-cases,
}
use net_working_mini_net.Buckets.{set_bucket, add_tail}
use net_working_mini_net.NatStack.{Mapping, Table, has_external_port, has_internal}
use net_working_mini_net.NatStack.Ports.{
  Pool, nat_port_min, nat_port_max, set_port, assign_external_port_incl,
}
use net_working_mini_net.NatStack.Ports.Assign.{
  Assigned, assigned, exhausted, assign_external_port_incl-Assigned,
}
use net_working_mini_net.NatStack.Hashed.{
  bucket, entry_for, nat_lookup_external, nat_lookup_internal, nat_insert_mapping, touch_entry,
  touch,
}

-- The fields fit packets, and the port is taken in the pool or is 0, the answer when none is free.
pub record IsStored (pool : Pool) (m : Mapping) : Type 0 where
  pub internal_ip : m.internal_ip < 2 ^ 32
  pub internal_port : m.internal_port < 2 ^ 16
  pub external_port : m.external_port < 2 ^ 16
  pub held :
      (port : ℕ)
      → port ≤ nat_port_max
      → nat_port_min ≤ port
      → m.external_port ≡ htons port
      → pool port ≢ 0

-- A mapping with the port of `m` that a packet from outside finds, with the internal side of `m`.
pub record Twin (t : Table) (m : Mapping) : Type 0 where
  pub copy : Mapping
  pub found : nat_lookup_external t m.external_port ≡ some copy
  pub same_ip : copy.internal_ip ≡ m.internal_ip
  pub same_port : copy.internal_port ≡ m.internal_port

-- Port 0 stands for no port.
abbrev pub HasTwin : Table → Mapping → Type 0
HasTwin t m = m.external_port ≢ 0 → Twin t m

pub record WellFormed (t : Table) : Type 0 where
  pub stored : (i : ℕ) → All (IsStored t.assigned_ports) (t.nat_mapping_list i)
  pub twins : (i : ℕ) → All (HasTwin t) (t.nat_mapping_list i)
