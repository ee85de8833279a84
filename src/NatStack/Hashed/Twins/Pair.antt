-- ===== src/NatStack/Hashed/Twins/Pair.antt =====
-- The table of nat_new_2.c with one more pair of twins: what is found there, and its invariant.
use mathlib.Core.Path.{subst}
use net_working_mini_net.Base.{
  ℕ, ◌≡◌, refl, ◌∙◌, inl, inr, Bool, true, none, some, List, [], ◌∷◌, ◌++◌, arith, ◌==◌, ==_refl,
  find, All, All-append, All-map, find-append, find-append_some, htons, Bool-cases,
}
use net_working_mini_net.Buckets.{add_tail}
use net_working_mini_net.NatStack.{Mapping, Table, has_external_port}
use net_working_mini_net.NatStack.Ports.{Pool}
use net_working_mini_net.NatStack.Hashed.{bucket, entry_for, nat_lookup_external}
use net_working_mini_net.NatStack.Hashed.Twins.{IsStored, HasTwin, WellFormed}

pub All-add_tail :
    (P : Mapping → Type 0) (lists : ℕ → List Mapping) (k i : ℕ) (m : Mapping)
    → All P (lists i)
    → P m
    → All P (add_tail lists k m i)
unfolding add_tail
All-add_tail P lists k i m h hm = elim (Bool-cases (i == k)) [
  | inl e ↦
      let same : i ≡ k = ground arith in
      rw e (All-append P (lists k) (m ∷ []) (subst (λ j. All P (lists j)) same h) (hm, tt))
  | inr e ↦ rw e h
]

pub find-add_tail :
    (p : Mapping → Bool) (lists : ℕ → List Mapping) (k i : ℕ) (m a : Mapping)
    → find p (lists i) ≡ some a
    → find p (add_tail lists k m i) ≡ some a
unfolding add_tail
find-add_tail p lists k i m a h = elim (Bool-cases (i == k)) [
  | inl e ↦
      let same : i ≡ k = ground arith in
      rw e (find-append_some p (lists k) (m ∷ []) a (subst (λ j. find p (lists j) ≡ some a) same h))
  | inr e ↦ rw e h
]

-- The table after an insertion with the port `port` and the pool `pool`.
module _ (now addr addr' : ℕ) (t : Table) (ip iport port : ℕ) (pool : Pool) where
  unfoldable pub new_entry : Mapping
  new_entry = entry_for t now addr ip iport port

  unfoldable pub new_twin : Mapping
  new_twin = entry_for t 0 addr' ip iport port

  unfoldable pub first_lists : ℕ → List Mapping
  unfolding new_entry
  first_lists = add_tail t.nat_mapping_list (bucket ip iport) new_entry

  unfoldable pub inserted : Table
  unfolding first_lists new_twin
  inserted = record t {
    nat_mapping_list = add_tail first_lists (bucket t.external_iface.ip (htons port)) new_twin;
    assigned_ports = pool;
  }

  -- A lookup that succeeded before gives the same mapping.
  pub lookup-inserted_old :
      (q : ℕ) (a : Mapping)
      → nat_lookup_external t q ≡ some a
      → nat_lookup_external inserted q ≡ some a
  unfolding nat_lookup_external inserted
  lookup-inserted_old q a h =
      find-add_tail (has_external_port q) first_lists (bucket t.external_iface.ip (htons port))
        (bucket t.external_iface.ip q) new_twin a
        (find-add_tail (has_external_port q) t.nat_mapping_list (bucket ip iport)
          (bucket t.external_iface.ip q) new_entry a h)

  -- A port that no mapping has is found in the new entry or in its twin.
  pub lookup-inserted_new :
      ((i : ℕ) → find (has_external_port (htons port)) (t.nat_mapping_list i) ≡ none)
      → (a : Mapping) × (nat_lookup_external inserted (htons port) ≡ some a)
        × (a.internal_ip ≡ ip)
        × (a.internal_port ≡ iport)
  unfolding nat_lookup_external inserted new_entry add_tail has_external_port
  lookup-inserted_new out =
      let h = bucket t.external_iface.ip (htons port) in
      let k = bucket ip iport in
      let self : (h == h) ≡ true = ==_refl h in
      let same : (htons port == htons port) ≡ true = ==_refl (htons port) in
      elim (Bool-cases (h == k)) [
        | inl e ↦ (
          new_entry,
          rw (self, e)
              (find-append_some (has_external_port (htons port))
                (t.nat_mapping_list k ++ new_entry ∷ []) (new_twin ∷ []) new_entry
                (find-append (has_external_port (htons port)) (t.nat_mapping_list k)
                    (new_entry ∷ []) (out k)
                  ∙ rw same refl)),
          refl,
          refl,
        )
        | inr e ↦ (
          new_twin,
          rw (self, e)
              (find-append (has_external_port (htons port)) (t.nat_mapping_list h) (new_twin ∷ [])
                  (out h)
                ∙ rw same refl),
          refl,
          refl,
        )
      ]

  pub HasTwin-inserted : (m : Mapping) → HasTwin t m → HasTwin inserted m
  HasTwin-inserted m tw ne =
      let b = tw ne in
      record {
        copy = b.copy;
        found = lookup-inserted_old m.external_port b.copy b.found;
        same_ip = b.same_ip;
        same_port = b.same_port;
      }

  -- Both new entries have a twin as soon as one of them has.
  pub inserted-WellFormed :
      WellFormed t
      → ((m : Mapping) → IsStored t.assigned_ports m → IsStored pool m)
      → IsStored pool new_entry
      → HasTwin inserted new_entry
      → WellFormed inserted
  unfolding inserted new_entry
  inserted-WellFormed w grows is twin = record {
    stored = λ i.
        All-add_tail (IsStored pool) first_lists (bucket t.external_iface.ip (htons port)) i
          new_twin
          (All-add_tail (IsStored pool) t.nat_mapping_list (bucket ip iport) i new_entry
            (All-map (IsStored t.assigned_ports) (IsStored pool) (t.nat_mapping_list i) grows
              (w.stored i))
            is)
          (record {
            internal_ip = is.internal_ip;
            internal_port = is.internal_port;
            external_port = is.external_port;
            held = is.held;
          });
    twins = λ i.
        All-add_tail (HasTwin inserted) first_lists (bucket t.external_iface.ip (htons port)) i
          new_twin
          (All-add_tail (HasTwin inserted) t.nat_mapping_list (bucket ip iport) i new_entry
            (All-map (HasTwin t) (HasTwin inserted) (t.nat_mapping_list i) HasTwin-inserted
              (w.twins i))
            twin)
          (λ ne.
            let b = twin ne in
            record {
              copy = b.copy;
              found = b.found;
              same_ip = b.same_ip;
              same_port = b.same_port;
            });
  }
