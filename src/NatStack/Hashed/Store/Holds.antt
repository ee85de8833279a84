-- ===== src/NatStack/Hashed/Store/Holds.antt =====
-- The memory that stands for a table of nat_new_2.c, and what its lookups find there.
use net_working_mini_net.Base.{
  ℕ, ◌<◌, ◌≡◌, refl, sym, inl, inr, Bool, true, Option, none, some, List, [], ◌∷◌, map, find, arith,
  Bool-cases,
}
use net_working_mini_net.Hash.{hash_8bits}
use net_working_mini_net.ListHead.{Ptr}
use net_working_mini_net.ListHead.Chain.{has}
use net_working_mini_net.Rings
use net_working_mini_net.Rings.{search_list}
use net_working_mini_net.Rings.Stores.{IsEnough, search_list_lem}
use net_working_mini_net.Rings.Short.{Short}
use net_working_mini_net.NatStack.{Mapping, Memory, Table, has_external_port, has_internal}
use net_working_mini_net.NatStack.Holds.{Holds}
use net_working_mini_net.NatStack.Hashed.{bucket, nat_lookup_external, nat_lookup_internal}
use net_working_mini_net.NatStack.Hashed.Store.{nat_lookup_external_at, nat_lookup_internal_at}

-- Every entry knows its own address.
abbrev pub Addressed : Rings.Store Mapping → (ℕ → List Ptr) → Type 0
Addressed s nodes =
    (i : ℕ) → i < hash_8bits → (a : Ptr) → has a (nodes i) ≡ true → (s.entry a).addr ≡ a

pub record Kept (heads : ℕ → Ptr) (m : Memory) (t : Table) (nodes : ℕ → List Ptr) : Type 0 where
  pub holds : Holds heads m t nodes
  pub addressed : Addressed m.store nodes

-- Memory that keeps the table, in lists of at most `count` nodes, next to the same result.
abbrev pub Same : {B : Type 0} → (heads : ℕ → Ptr) (count : ℕ) → Memory × B → Table × B → Type 0
Same heads count r r' =
    (r.1 ≡ r'.1)
    × (nodes : ℕ → List Ptr) × Kept heads r.0 r'.0 nodes
    × Short count r'.0.nat_mapping_list

-- Either both dereference NULL, or both go on.
abbrev pub SameOption :
    {B : Type 0} → (heads : ℕ → Ptr) (count : ℕ) → Option (Memory × B) → Option (Table × B) → Type 0
SameOption heads count none none = Unit
SameOption heads count none (some r') = ⊥
SameOption heads count (some r) none = ⊥
SameOption heads count (some r) (some r') = Same heads count r r'

-- A pointer to the entry that was found, at its own address.
abbrev pub Points : Rings.Store Mapping → Option Ptr → Option Mapping → Type 0
Points s none none = Unit
Points s none (some x) = ⊥
Points s (some a) none = ⊥
Points s (some a) (some x) = (s.entry a ≡ x) × (x.addr ≡ a)

find-Points :
    (s : Rings.Store Mapping) (p : Mapping → Bool) (xs : List Ptr)
    → ((a : Ptr) → has a xs ≡ true → (s.entry a).addr ≡ a)
    → Points s (find (λ n. p (s.entry n)) xs) (find p (map s.entry xs))
find-Points s p [] h = tt
find-Points s p (x ∷ xs) h = elim (Bool-cases (p (s.entry x))) [
  | inl e ↦ rw e (refl, h x (ground arith))
  | inr e ↦ rw e (find-Points s p xs (λ a i. h a (ground arith)))
]

pub bucket-lt : (addr port : ℕ) → bucket addr port < hash_8bits
unfolding bucket
bucket-lt addr port = omega arith

module _ (heads : ℕ → Ptr) (m : Memory) (t : Table) (nodes : ℕ → List Ptr)
    (r : Kept heads m t nodes) (fuel : ℕ) (enough : IsEnough fuel nodes) where
  search_list-Points :
      (p : Mapping → Bool) (k : ℕ)
      → k < hash_8bits
      → Points m.store
          (search_list fuel m.store (λ n. p (m.store.entry n)) (heads k))
          (find p (t.nat_mapping_list k))
  search_list-Points p k b =
      let stores = r.holds.stores in
      rw
        (
          search_list_lem heads m.store t.nat_mapping_list nodes stores fuel enough
              (λ n. p (m.store.entry n)) k b,
          sym (stores.content k b),
        )
        (find-Points m.store p (nodes k) (r.addressed k b))

  pub nat_lookup_external_at-Points :
      (port : ℕ)
      → Points m.store (nat_lookup_external_at heads fuel m port) (nat_lookup_external t port)
  unfolding nat_lookup_external_at nat_lookup_external
  nat_lookup_external_at-Points port = rw (r.holds.external) (
      search_list-Points (has_external_port port) (bucket t.external_iface.ip port)
        (bucket-lt _ port))

  pub nat_lookup_internal_at-Points :
      (ip port : ℕ)
      → Points m.store (nat_lookup_internal_at heads fuel m ip port) (nat_lookup_internal t ip port)
  unfolding nat_lookup_internal_at nat_lookup_internal
  nat_lookup_internal_at-Points ip port =
      search_list-Points (has_internal ip port) (bucket ip port) (bucket-lt ip port)
