-- ===== src/NatStack/Hashed/Store/Packets.antt =====
-- What `nat_translate_packet` of nat_new_2.c does to the memory and to the table.
use mathlib.Core.Option
use net_working_mini_net.Base.{
  ℕ, suc, ◌≡◌, ◌≢◌, refl, inl, inr, Option, none, some, List, ◌==◌, length-map, arith, Bool-cases,
}
use net_working_mini_net.ListHead.{Ptr}
use net_working_mini_net.Rings.Stores.{IsEnough, IsFresh}
use net_working_mini_net.Rings.Short.{Short}
use net_working_mini_net.Packet.{Bytes, saddr, sport, dport, protocol, ipproto_tcp}
use net_working_mini_net.NatStack.{Dir, dir_in, dir_out, dir_invalid, Mapping, Memory, Table}
use net_working_mini_net.NatStack.Hashed.{
  touch, nat_lookup_external, nat_lookup_internal, nat_insert_mapping, found_or_inserted,
  translate_in, translate_out, do_translation, translate_packet, nat_translate_packet,
  get_packet_direction,
}
use net_working_mini_net.NatStack.Hashed.Store.{
  set_time, found_or_inserted_at, nat_lookup_external_at, nat_lookup_internal_at, translate_in_at,
  translate_out_at, translate_source_at, do_translation_at, translate_packet_at,
  nat_translate_packet_at, get_packet_direction_at,
}
use net_working_mini_net.NatStack.Hashed.Store.Holds.{
  Kept, Same, SameOption, Points, nat_lookup_external_at-Points, nat_lookup_internal_at-Points,
}
use net_working_mini_net.NatStack.Hashed.Store.Insert.{inserts, inserted_entry}
use net_working_mini_net.NatStack.Hashed.Store.Touch.{set_time-Kept}

module _ (heads : ℕ → Ptr) (inet_addr : List ℕ → ℕ) (now : ℕ) (p : Bytes) (len : ℕ) (m : Memory)
    (t : Table) (nodes : ℕ → List Ptr) (r : Kept heads m t nodes) (count : ℕ)
    (short : Short count t.nat_mapping_list) (a : Ptr) (x : Mapping) (same : m.store.entry a ≡ x)
    (own : x.addr ≡ a) where
  touched : Kept heads (set_time now a m) (touch x.addr now t) nodes
  touched = rw own (set_time-Kept heads now a m t nodes r)

  touched-Short : Short count (touch x.addr now t).nat_mapping_list
  unfolding touch
  touched-Short i = rw length-map (short i)

  translate_in_lem :
      Same heads count (translate_in_at now m p len a) (translate_in inet_addr now t p len x)
  unfolding translate_in_at translate_in
  translate_in_lem = (rw same refl, nodes, touched, touched-Short)

  translate_out_lem :
      Same heads count
        (translate_out_at inet_addr now m p len a)
        (translate_out inet_addr now t p len x)
  unfolding translate_out_at translate_out
  translate_out_lem = (rw (same, r.holds.external) refl, nodes, touched, touched-Short)

module _ (heads : ℕ → Ptr) (inet_addr : List ℕ → ℕ) (fuel now : ℕ) (n n' : Ptr) (m : Memory)
    (t : Table) (nodes : ℕ → List Ptr) (r : Kept heads m t nodes) (enough : IsEnough fuel nodes)
    (fresh : IsFresh heads nodes n) (fresh' : IsFresh heads nodes n') (ne : n' ≢ n) (count : ℕ)
    (short : Short count t.nat_mapping_list) (p : Bytes) (len : ℕ) where
  longer : Short (suc (suc count)) t.nat_mapping_list
  longer i = omega (arith, short i)

  -- The mapping of the source, found or inserted.
  source :
      (ip port : ℕ) (o : Option Ptr) (o' : Option Mapping)
      → Points m.store o o'
      → let f = found_or_inserted_at heads o now n n' m ip port in
        let f' = found_or_inserted o' now n n' t ip port in
        (nodes' : ℕ → List Ptr) × Kept heads f.1 f'.1 nodes'
        × Short (suc (suc count)) f'.1.nat_mapping_list
        × (f.1.store.entry f.0 ≡ f'.0)
        × (f'.0.addr ≡ f.0)
  unfolding found_or_inserted_at found_or_inserted
  source ip port none (some x) e = elim e [ ]
  source ip port (some a) none e = elim e [ ]
  source ip port (some a) (some x) e = (nodes, r, longer, e.0, e.1)
  source ip port none none e =
      let (nodes', kept, short') =
        inserts heads m t nodes r now n n' fresh fresh' ne count short ip port in
      (
        nodes',
        kept,
        short',
        inserted_entry heads now n n' m t nodes r ne ip port,
        unfold nat_insert_mapping in refl,
      )

  translate_source_lem :
      Same heads (suc (suc count)) (translate_source_at heads inet_addr fuel now n n' m p len) (
        let f =
          found_or_inserted
            (nat_lookup_internal t (saddr p) (sport p))
            now
            n
            n'
            t
            (saddr p)
            (sport p) in
        translate_out inet_addr now f.1 p len f.0)
  unfolding translate_source_at
  translate_source_lem =
      let o = nat_lookup_internal_at heads fuel m (saddr p) (sport p) in
      let (nodes', kept, short', same, own) =
        source (saddr p) (sport p) o (nat_lookup_internal t (saddr p) (sport p))
          (nat_lookup_internal_at-Points heads m t nodes r fuel enough (saddr p) (sport p)) in
      translate_out_lem heads inet_addr now p len _ _ nodes' kept (suc (suc count)) short' _ _ same
        own

  incoming :
      (o : Option Ptr) (o' : Option Mapping)
      → Points m.store o o'
      → SameOption heads
          (suc (suc count))
          (Option.map (translate_in_at now m p len) o)
          (Option.map (translate_in inet_addr now t p len) o')
  incoming none none e = tt
  incoming none (some x) e = elim e [ ]
  incoming (some a) none e = elim e [ ]
  incoming (some a) (some x) e =
      translate_in_lem heads inet_addr now p len m t nodes r (suc (suc count)) longer a x e.0 e.1

  do_translation_lem :
      (dir : Dir)
      → SameOption heads
          (suc (suc count))
          (do_translation_at heads inet_addr fuel now n n' m p len dir)
          (do_translation inet_addr now n n' t p len dir)
  unfolding do_translation_at do_translation
  do_translation_lem dir_in =
      incoming (nat_lookup_external_at heads fuel m (dport p)) (nat_lookup_external t (dport p))
        (nat_lookup_external_at-Points heads m t nodes r fuel enough (dport p))
  do_translation_lem dir_out = translate_source_lem
  do_translation_lem dir_invalid = translate_source_lem

  translate_packet_lem :
      (dir : Dir)
      → SameOption heads
          (suc (suc count))
          (translate_packet_at heads inet_addr fuel now n n' m p len dir)
          (translate_packet inet_addr now n n' t p len dir)
  unfolding translate_packet_at translate_packet
  translate_packet_lem dir_invalid = (refl, nodes, r, longer)
  translate_packet_lem dir_in = elim (Bool-cases (protocol p == ipproto_tcp)) [
    | inl e ↦ rw e (do_translation_lem dir_in)
    | inr e ↦ rw e (refl, nodes, r, longer)
  ]
  translate_packet_lem dir_out = elim (Bool-cases (protocol p == ipproto_tcp)) [
    | inl e ↦ rw e (do_translation_lem dir_out)
    | inr e ↦ rw e (refl, nodes, r, longer)
  ]

  same_direction : get_packet_direction_at m p ≡ get_packet_direction t p
  unfolding get_packet_direction_at get_packet_direction
  same_direction = rw (r.holds.external) refl

  -- `nat_translate_packet` of nat_new_2.c sends from the memory what it sends from the table, or both
  -- dereference NULL, and the memory keeps the table again.
  pub nat_translate_packet_at_lem :
      SameOption heads
        (suc (suc count))
        (nat_translate_packet_at heads inet_addr fuel now n n' m p len)
        (nat_translate_packet inet_addr now n n' t p len)
  unfolding nat_translate_packet_at nat_translate_packet
  nat_translate_packet_at_lem = rw same_direction (translate_packet_lem (get_packet_direction t p))
