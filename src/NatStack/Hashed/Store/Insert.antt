-- ===== src/NatStack/Hashed/Store/Insert.antt =====
-- An insertion of nat_new_2.c: two new nodes in two lists, or in one.
use net_working_mini_net.Base.{
  ℕ, suc, ◌<◌, ◌≡◌, ◌≢◌, refl, ap₂, sym, ◌∙◌, inl, inr, true, false, ◌||◌, List, [], ◌∷◌, ◌==◌,
  ==_refl, arith, Bool-cases,
}
use net_working_mini_net.Hash.{hash_8bits}
use net_working_mini_net.Buckets.{add_tail, set_bucket}
use net_working_mini_net.ListHead.{Ptr, init_list_head}
use net_working_mini_net.ListHead.Chain.{has, has-append}
use net_working_mini_net.Rings
use net_working_mini_net.Rings.{set_entry, add_node}
use net_working_mini_net.Rings.Stores.{Stores, IsFresh}
use net_working_mini_net.Rings.Short.{Short, add_tail-Short}
use net_working_mini_net.Rings.Insert.{add_node-Stores}
use net_working_mini_net.Rings.Write.{init_node-Stores}
use net_working_mini_net.NatStack.{Mapping, Memory, Table}
use net_working_mini_net.NatStack.Hashed.{bucket, nat_insert_mapping}
use net_working_mini_net.NatStack.Hashed.Store.{add_mapping, new_mapping, nat_insert_mapping_at}
use net_working_mini_net.NatStack.Hashed.Store.Holds.{Addressed, Kept, bucket-lt}

module _ (heads : ℕ → Ptr) (s : Rings.Store Mapping) (t : ℕ → List Mapping) (nodes : ℕ → List Ptr)
    (n : Ptr) (k : ℕ) (b : k < hash_8bits) where
  add_mapping-Stores :
      (e : Mapping)
      → Stores heads s t nodes
      → IsFresh heads nodes n
      → Stores heads (add_mapping (heads k) n e s) (add_tail t k e) (add_tail nodes k n)
  unfolding add_mapping
  add_mapping-Stores e r fresh =
      add_node-Stores heads (record s { links = init_list_head s.links n }) t nodes
        (init_node-Stores heads s t nodes r n fresh) n e k b fresh

  add_mapping-Addressed :
      (e : Mapping)
      → Addressed s nodes
      → e.addr ≡ n
      → Addressed (add_mapping (heads k) n e s) (add_tail nodes k n)
  unfolding add_mapping add_node set_entry add_tail set_bucket
  add_mapping-Addressed e addressed own i c a h = elim (Bool-cases (a == n)) [
    | inl same ↦ let eq : n ≡ a = ground arith in rw same (own ∙ eq)
    | inr other ↦ rw other (elim (Bool-cases (i == k)) [
      | inl here ↦
          let or : (has a (nodes k) || has a (n ∷ [])) ≡ true =
            sym (has-append a (nodes k) (n ∷ [])) ∙ rw here at h in
          addressed k b a (ground arith)
      | inr there ↦ addressed i c a (rw there at h)
    ])
  ]

  still-IsFresh :
      (n' : Ptr) → n' ≢ n → IsFresh heads nodes n' → IsFresh heads (add_tail nodes k n) n'
  unfolding add_tail set_bucket
  still-IsFresh n' ne fresh i c = elim (Bool-cases (i == k)) [
    | inl here ↦
        let inside = fresh k b in
        let outside = fresh i c in
        let head : (n' == heads i) ≡ false = ground arith in
        let members : (has n' (nodes k) || has n' (n ∷ [])) ≡ false = ground arith in
        rw here (ap₂ (λ x y. x || y) head (has-append n' (nodes k) (n ∷ []) ∙ members))
    | inr there ↦ rw there (fresh i c)
  ]

module _ (heads : ℕ → Ptr) (m : Memory) (t : Table) (nodes : ℕ → List Ptr)
    (r : Kept heads m t nodes) (now : ℕ) (n n' : Ptr) (fresh : IsFresh heads nodes n)
    (fresh' : IsFresh heads nodes n') (ne : n' ≢ n) (count : ℕ)
    (short : Short count t.nat_mapping_list) where
  -- Both entries are inserted, each in its list.
  pub inserts :
      (ip port : ℕ)
      → (nodes' : ℕ → List Ptr) × Kept heads
          (nat_insert_mapping_at heads now n n' m ip port)
          (nat_insert_mapping now n n' t ip port).1
          nodes'
        × Short (suc (suc count)) (nat_insert_mapping now n n' t ip port).1.nat_mapping_list
  unfolding nat_insert_mapping_at nat_insert_mapping new_mapping
  inserts ip port =
      let k = bucket ip port in
      let e = (nat_insert_mapping now n n' t ip port).0 in
      let twin : Mapping = record e { addr = n'; update_time = 0 } in
      let k' = bucket t.external_iface.ip e.external_port in
      let s = m.store in
      let l = t.nat_mapping_list in
      let s₁ = add_mapping (heads k) n e s in
      let stores₁ =
        add_mapping-Stores heads s l nodes n k (bucket-lt ip port) e r.holds.stores fresh in
      let addressed₁ =
        add_mapping-Addressed heads s l nodes n k (bucket-lt ip port) e r.addressed refl in
      let fresh₁ = still-IsFresh heads s l nodes n k (bucket-lt ip port) n' ne fresh' in
      let nodes₁ = add_tail nodes k n in
      (
        add_tail nodes₁ k' n',
        record {
          holds = record {
            stores =
                rw (r.holds.external, r.holds.ports)
                  (add_mapping-Stores heads s₁ (add_tail l k e) nodes₁ n' k' (bucket-lt _ _) twin
                    stores₁ fresh₁);
            internal = r.holds.internal;
            external = r.holds.external;
            ports = rw (r.holds.ports) refl;
          };
          addressed =
              rw (r.holds.external, r.holds.ports)
                (add_mapping-Addressed heads s₁ (add_tail l k e) nodes₁ n' k' (bucket-lt _ _) twin
                  addressed₁ refl);
        },
        add_tail-Short (suc count) k' _ _ (add_tail-Short count k _ l short),
      )

-- The pointer that an insertion returns leads to the new mapping.
pub inserted_entry :
    (heads : ℕ → Ptr) (now : ℕ) (n n' : Ptr) (m : Memory) (t : Table) (nodes : ℕ → List Ptr)
    → Kept heads m t nodes
    → n' ≢ n
    → (ip port : ℕ)
    → (nat_insert_mapping_at heads now n n' m ip port).store.entry n
      ≡ (nat_insert_mapping now n n' t ip port).0
unfolding nat_insert_mapping_at nat_insert_mapping new_mapping add_mapping add_node set_entry
inserted_entry heads now n n' m t nodes r ne ip port =
    let other : (n == n') ≡ false = ground (arith, ne) in
    rw (other, ==_refl, r.holds.external, r.holds.ports) refl
