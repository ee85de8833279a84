-- ===== src/NatStack/Hashed/Idle.antt =====
-- Tables of nat_new_2.c that `nat_timeout` does not change, and what packets do to them.
pub mod Runs
use mathlib.Core.Option
use mathlib.Core.Path.{subst, fun_ext}
use net_working_mini_net.Base.{
  ℕ, zero, suc, ◌+◌, ◌≤◌, ◌<◌, ◌≡◌, ◌≢◌, refl, ap, ap₂, sym, ◌∙◌, inl, inr, Bool, true, false, ◌&&◌,
  ◌||◌, map, Option, none, some, List, [], ◌∷◌, ◌++◌, arith, ◌==◌, ==_refl, ==_iff, find, All,
  All-append, All-map, Bool-cases, Option-cases, htons,
}
use net_working_mini_net.Hash.{hash_8bits}
use net_working_mini_net.Buckets.{set_bucket, add_tail}
use net_working_mini_net.Packet.{Bytes, saddr, daddr, sport, dport, protocol, ipproto_tcp}
use net_working_mini_net.NatStack.{
  Mapping, Table, Action, Dir, dir_in, dir_out, dir_invalid, zero_connection, is_expired,
}
use net_working_mini_net.NatStack.Ports.{Pool, assign_external_port_incl}
use net_working_mini_net.NatStack.Expiry.{expire_list, expire_from}
use net_working_mini_net.NatStack.Hashed.{
  bucket, is_flow_finished, is_over, entry_for, nat_lookup_external, nat_lookup_internal,
  nat_insert_mapping, found_or_inserted, touch_entry, touch, translate_in, translate_out,
  do_translation, translate_packet, nat_translate_packet, get_packet_direction, nat_timeout,
}

-- A mapping as `bzero` left its connection, and with a time that is past.
abbrev pub IsQuiet : (now : ℕ) → Mapping → Type 0
IsQuiet now m = (m.conn ≡ zero_connection) × (m.update_time ≤ now)

abbrev pub AllQuiet : (now : ℕ) → Table → Type 0
AllQuiet now t = (i : ℕ) → All (IsQuiet now) (t.nat_mapping_list i)

pub not_over : (now : ℕ) (m : Mapping) → IsQuiet now m → is_over now m ≡ false
unfolding is_over is_flow_finished is_expired
not_over now m q = let le = q.1 in rw (q.0) (ground arith)

module _ (now : ℕ) where
  expire_list-quiet :
      (pool : Pool) (l : List Mapping)
      → All (IsQuiet now) l
      → expire_list (is_over now) pool l ≡ (l, pool)
  unfolding expire_list
  expire_list-quiet pool [] q = refl
  expire_list-quiet pool (m ∷ l) q = rw (not_over now m q.0, expire_list-quiet pool l q.1) refl

  set_bucket-same : (t : ℕ → List Mapping) (i : ℕ) → set_bucket t i (t i) ≡ t
  unfolding set_bucket
  set_bucket-same t i = fun_ext λ j. elim (Bool-cases (j == i)) [
    | inl e ↦ let same : i ≡ j = ground arith in rw e (ap t same)
    | inr e ↦ rw e refl
  ]

  expire_from-quiet :
      (left i : ℕ) (t : Table) → AllQuiet now t → expire_from (is_over now) left i t ≡ t
  unfolding expire_from
  expire_from-quiet zero i t q = refl
  expire_from-quiet (suc left) i t q =
      rw
        (
          expire_list-quiet t.assigned_ports (t.nat_mapping_list i) (q i),
          set_bucket-same t.nat_mapping_list i,
        )
        (expire_from-quiet left (suc i) t q)

  pub nat_timeout-quiet : (t : Table) → AllQuiet now t → nat_timeout now t ≡ t
  unfolding nat_timeout
  nat_timeout-quiet t q = expire_from-quiet hash_8bits 0 t q

  -- What packets do to quiet tables.
  touch_entries-IsQuiet :
      (addr : ℕ) (l : List Mapping)
      → All (IsQuiet now) l
      → All (IsQuiet now) (map (touch_entry addr now) l)
  unfolding touch_entry
  touch_entries-IsQuiet addr [] h = tt
  touch_entries-IsQuiet addr (m ∷ l) h = (
    elim (Bool-cases (m.addr == addr)) [ inl e ↦ rw e (h.0.0, omega arith) | inr e ↦ rw e (h.0) ],
    touch_entries-IsQuiet addr l h.1,
  )

  touch-AllQuiet : (addr : ℕ) (t : Table) → AllQuiet now t → AllQuiet now (touch addr now t)
  unfolding touch
  touch-AllQuiet addr t q i = touch_entries-IsQuiet addr (t.nat_mapping_list i) (q i)

  add_tail-IsQuiet :
      (t : ℕ → List Mapping) (k : ℕ) (m : Mapping)
      → ((i : ℕ) → All (IsQuiet now) (t i))
      → IsQuiet now m
      → (i : ℕ) → All (IsQuiet now) (add_tail t k m i)
  unfolding add_tail set_bucket
  add_tail-IsQuiet t k m q h i = elim (Bool-cases (i == k)) [
    | inl e ↦ rw e (All-append (IsQuiet now) (t k) (m ∷ []) (q k) (h, tt))
    | inr e ↦ rw e (q i)
  ]

  found_or_inserted-AllQuiet :
      (o : Option Mapping) (addr addr' : ℕ) (t : Table) (ip port : ℕ)
      → AllQuiet now t
      → AllQuiet now (found_or_inserted o now addr addr' t ip port).1
  unfolding found_or_inserted nat_insert_mapping
  found_or_inserted-AllQuiet (some m) addr addr' t ip port q = q
  found_or_inserted-AllQuiet none addr addr' t ip port q =
      add_tail-IsQuiet _ _ _ (add_tail-IsQuiet _ _ _ q (refl, omega arith)) (refl, omega arith)

-- Where a step ends without a NULL pointer, its table is quiet.
abbrev pub EndsQuiet : (now : ℕ) → Option (Table × List Action) → Type 0
EndsQuiet now none = Unit {0}
EndsQuiet now (some (t, sent)) = AllQuiet now t

module _ (inet_addr : List ℕ → ℕ) (now addr addr' : ℕ) (t : Table) (packet : Bytes) (len : ℕ)
    (q : AllQuiet now t) where
  do_translation-EndsQuiet :
      (dir : Dir) → EndsQuiet now (do_translation inet_addr now addr addr' t packet len dir)
  unfolding do_translation translate_in translate_out
  do_translation-EndsQuiet dir_in = elim (Option-cases (nat_lookup_external t (dport packet))) [
    | inl e ↦ rw e tt
    | inr (m, e) ↦ rw e (touch-AllQuiet now m.addr t q)
  ]
  do_translation-EndsQuiet dir_out =
      touch-AllQuiet now _ _
        (found_or_inserted-AllQuiet now _ addr addr' t (saddr packet) (sport packet) q)
  do_translation-EndsQuiet dir_invalid =
      touch-AllQuiet now _ _
        (found_or_inserted-AllQuiet now _ addr addr' t (saddr packet) (sport packet) q)

  pub translate_packet-EndsQuiet :
      (dir : Dir) → EndsQuiet now (translate_packet inet_addr now addr addr' t packet len dir)
  unfolding translate_packet
  translate_packet-EndsQuiet dir_invalid = q
  translate_packet-EndsQuiet dir_in = elim (Bool-cases (protocol packet == ipproto_tcp)) [
    | inl e ↦ rw e (do_translation-EndsQuiet dir_in)
    | inr e ↦ rw e q
  ]
  translate_packet-EndsQuiet dir_out = elim (Bool-cases (protocol packet == ipproto_tcp)) [
    | inl e ↦ rw e (do_translation-EndsQuiet dir_out)
    | inr e ↦ rw e q
  ]
