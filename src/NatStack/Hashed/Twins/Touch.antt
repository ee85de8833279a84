-- ===== src/NatStack/Hashed/Twins/Touch.antt =====
-- The time that `do_translation` of nat_new_2.c sets in a mapping.
use mathlib.Core.Option
use net_working_mini_net.Base.{
  ℕ, ◌≡◌, refl, sym, ◌∙◌, inl, inr, Bool, map, List, [], ◌∷◌, arith, find, All, Bool-cases,
}
use net_working_mini_net.NatStack.{Mapping, Table, has_external_port}
use net_working_mini_net.NatStack.Hashed.{bucket, nat_lookup_external, touch_entry, touch}
use net_working_mini_net.NatStack.Hashed.Twins.{IsStored, Twin, HasTwin, WellFormed}

-- Setting the time of an entry changes no port and no address.
find-map :
    (q : Mapping → Bool) (f : Mapping → Mapping) (xs : List Mapping)
    → ((m : Mapping) → q (f m) ≡ q m)
    → find q (map f xs) ≡ Option.map f (find q xs)
find-map q f [] h = refl
find-map q f (x ∷ xs) h = elim (Bool-cases (q x)) [
  | inl e ↦ rw (h x, e)
  | inr e ↦ rw (h x, e, find-map q f xs h)
]

All-map_list :
    (P Q : Mapping → Type 0) (f : Mapping → Mapping) (xs : List Mapping)
    → ((m : Mapping) → P m → Q (f m))
    → All P xs
    → All Q (map f xs)
All-map_list P Q f [] g h = tt
All-map_list P Q f (x ∷ xs) g h = (g x h.0, All-map_list P Q f xs g h.1)

module _ (addr now : ℕ) where
  touch_entry_same :
      (m : Mapping)
      → ((touch_entry addr now m).internal_ip ≡ m.internal_ip)
        × ((touch_entry addr now m).internal_port ≡ m.internal_port)
        × ((touch_entry addr now m).external_port ≡ m.external_port)
  unfolding touch_entry
  touch_entry_same m = ground arith

  pub lookup-touch :
      (t : Table) (q : ℕ)
      → nat_lookup_external (touch addr now t) q
        ≡ Option.map (touch_entry addr now) (nat_lookup_external t q)
  unfolding nat_lookup_external touch
  lookup-touch t q =
      find-map (has_external_port q) (touch_entry addr now)
        (t.nat_mapping_list (bucket t.external_iface.ip q))
        (λ m. unfold has_external_port in rw (touch_entry_same m).2 refl)

  pub touch-Twin : (t : Table) (m : Mapping) → Twin t m → Twin (touch addr now t) m
  touch-Twin t m b =
      let same = touch_entry_same b.copy in
      record {
        copy = touch_entry addr now b.copy;
        found = lookup-touch t m.external_port ∙ rw b.found refl;
        same_ip = same.0 ∙ b.same_ip;
        same_port = same.1 ∙ b.same_port;
      }

  pub touch-WellFormed : (t : Table) → WellFormed t → WellFormed (touch addr now t)
  unfolding touch
  touch-WellFormed t w = record {
    stored = λ i.
        All-map_list (IsStored t.assigned_ports) (IsStored t.assigned_ports) (touch_entry addr now)
          (t.nat_mapping_list i) keeps (w.stored i);
    twins = λ i.
        All-map_list (HasTwin t) (HasTwin (touch addr now t)) (touch_entry addr now)
          (t.nat_mapping_list i) moves (w.twins i);
  }
    where
      keeps :
          (m : Mapping)
          → IsStored t.assigned_ports m
          → IsStored t.assigned_ports (touch_entry addr now m)
      keeps m is =
          let (a, b, c) = touch_entry_same m in
          record {
            internal_ip = rw a is.internal_ip;
            internal_port = rw b is.internal_port;
            external_port = rw c is.external_port;
            held = λ q h l k. is.held q h l (sym c ∙ k);
          }

      moves : (m : Mapping) → HasTwin t m → HasTwin (touch addr now t) (touch_entry addr now m)
      moves m tw ne =
          let (a, b, c) = touch_entry_same m in
          let twin = touch-Twin t m (tw (λ z. ne (c ∙ z))) in
          record {
            copy = twin.copy;
            found = rw c twin.found;
            same_ip = twin.same_ip ∙ sym a;
            same_port = twin.same_port ∙ sym b;
          }
