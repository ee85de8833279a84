-- ===== src/NatStack/Linear/Store/Holds.antt =====
-- The memory that stands for a table of nat.c, and what `nat_translate_packet` does to both.
use mathlib.Core.Option
use net_working_mini_net.Base.{
  ℕ, suc, ◌+◌, ◌≤◌, ◌≡◌, refl, ap, ap₂, sym, ◌∙◌, inl, inr, Option, none, some, List, [], ◌∷◌, ◌==◌,
  Bool, arith, Bool-cases,
}
use net_working_mini_net.Hash.{hash_8bits}
use net_working_mini_net.Buckets.{first_in, add_tail}
use net_working_mini_net.ListHead.{Ptr}
use net_working_mini_net.Rings.{first_node}
use net_working_mini_net.Rings.Stores.{IsEnough, IsFresh, first_node_lem, first_in-content}
use net_working_mini_net.Rings.Short.{Short, add_tail-Short}
use net_working_mini_net.Rings.Insert.{add_node-Stores}
use net_working_mini_net.Packet.{Bytes, tcp_hdr, saddr, sport, dport, protocol, ipproto_tcp}
use net_working_mini_net.NatStack.{
  Dir, dir_in, dir_out, dir_invalid, Mapping, Memory, Iface, Table, ip_send_packet,
  has_external_port, has_internal,
}
use net_working_mini_net.NatStack.Rewrite.{update_checksums, rewrite_destination, rewrite_source}
use net_working_mini_net.NatStack.Linear.{
  nat_get_mapping_from_packet, nat_insert_mapping, get_packet_direction, translate, do_translation,
  translate_packet, nat_translate_packet,
}
use net_working_mini_net.NatStack.Linear.Invariant.{
  search_external-first_in, search_internal-first_in,
}
use net_working_mini_net.NatStack.Holds.{Holds, Same}
use net_working_mini_net.NatStack.Linear.Store.{
  nat_get_mapping_from_packet_at, nat_insert_mapping_at, get_packet_direction_at, translate_at,
  do_translation_at, translate_packet_at, nat_translate_packet_at,
}

module _ (heads : ℕ → Ptr) (m : Memory) (t : Table) (nodes : ℕ → List Ptr)
    (r : Holds heads m t nodes) where
  found :
      (fuel : ℕ) (test : Mapping → Bool)
      → IsEnough fuel nodes
      → Option.map m.store.entry
          (first_node heads fuel (λ n. test (m.store.entry n)) hash_8bits 0 m.store)
        ≡ first_in test hash_8bits 0 t.nat_mapping_list
  found fuel test f =
      ap (Option.map m.store.entry) (
        first_node_lem heads m.store t.nat_mapping_list nodes r.stores fuel f _ hash_8bits 0
          (omega arith))
      ∙ first_in-content heads m.store t.nat_mapping_list nodes r.stores test hash_8bits 0
          (omega arith)

  -- The pointer that the loops find leads to the mapping of the model.
  pub nat_get_mapping_from_packet_at_lem :
      (fuel : ℕ) (p : Bytes) (dir : Dir)
      → IsEnough fuel nodes
      → Option.map m.store.entry (nat_get_mapping_from_packet_at heads fuel m p dir)
        ≡ nat_get_mapping_from_packet t p dir
  unfolding nat_get_mapping_from_packet_at nat_get_mapping_from_packet
  nat_get_mapping_from_packet_at_lem fuel p dir_in f =
      found fuel (has_external_port (dport p)) f
      ∙ sym (search_external-first_in hash_8bits 0 t.nat_mapping_list (dport p))
  nat_get_mapping_from_packet_at_lem fuel p dir_out f =
      found fuel (has_internal (saddr p) (sport p)) f
      ∙ sym (search_internal-first_in hash_8bits 0 t.nat_mapping_list (saddr p) (sport p))
  nat_get_mapping_from_packet_at_lem fuel p dir_invalid f =
      found fuel (has_internal (saddr p) (sport p)) f
      ∙ sym (search_internal-first_in hash_8bits 0 t.nat_mapping_list (saddr p) (sport p))

  module _ (inet_addr : List ℕ → ℕ) (now : ℕ) (n : Ptr) (fresh : IsFresh heads nodes n) (count : ℕ)
      (short : Short count t.nat_mapping_list) (p : Bytes) where
    same_direction :
        get_packet_direction_at heads inet_addr m p ≡ get_packet_direction inet_addr t p
    unfolding get_packet_direction_at get_packet_direction
    same_direction = rw (r.external) refl

    inserted :
        (k ip port : ℕ)
        → k + 1 ≤ hash_8bits
        → Holds heads
            (nat_insert_mapping_at heads inet_addr now n m k ip port)
            (nat_insert_mapping inet_addr now n t k ip port).1
            (add_tail nodes k n)
    unfolding nat_insert_mapping_at nat_insert_mapping
    inserted k ip port b = record {
      stores =
          rw (r.external, r.ports)
            (add_node-Stores heads m.store t.nat_mapping_list nodes r.stores n _ k (omega arith)
              fresh);
      internal = r.internal;
      external = r.external;
      ports = rw (r.ports) refl;
    }

    -- An insertion, and the packet as it is.
    inserts :
        Same heads
          (suc count)
          (nat_insert_mapping_at heads inet_addr now n m 0 (saddr p) (sport p), p)
          ((nat_insert_mapping inet_addr now n t 0 (saddr p) (sport p)).1, p)
    unfolding nat_insert_mapping
    inserts = (
      refl,
      add_tail nodes 0 n,
      inserted 0 (saddr p) (sport p) (omega arith),
      add_tail-Short count 0 _ t.nat_mapping_list short,
    )

    stays : {B : Type 0} (b b' : B) → b ≡ b' → Same heads (suc count) (m, b) (t, b')
    stays b b' e = (e, nodes, r, λ i. omega (arith, short i))

    translates :
        (tcp : ℕ) (dir : Dir) (o : Option Ptr) (o' : Option Mapping)
        → Option.map m.store.entry o ≡ o'
        → Same heads
            (suc count)
            (translate_at heads inet_addr now n m p tcp dir o)
            (translate inet_addr now n t p tcp dir o')
    unfolding translate_at translate
    translates tcp dir none (some x) e = absurd (Option.none-ne-some x e)
    translates tcp dir (some a) none e = absurd (Option.none-ne-some (m.store.entry a) (sym e))
    translates tcp dir_in none none e = inserts
    translates tcp dir_out none none e = inserts
    translates tcp dir_invalid none none e = inserts
    translates tcp dir_in (some a) (some x) e =
        stays _ _ (ap (rewrite_destination p tcp) (Option.some_inj.0 e))
    translates tcp dir_out (some a) (some x) e = stays _ _ (
        ap₂ (λ (i : Iface) y. rewrite_source p tcp (inet_addr i.ip_str) y) (r.external)
          (Option.some_inj.0 e))
    translates tcp dir_invalid (some a) (some x) e = stays _ _ (
        ap₂ (λ (i : Iface) y. rewrite_source p tcp (inet_addr i.ip_str) y) (r.external)
          (Option.some_inj.0 e))

    module _ (fuel len : ℕ) (f : IsEnough fuel nodes) where
      do_translation_lem :
          (dir : Dir)
          → Same heads
              (suc count)
              (do_translation_at heads inet_addr fuel now n m p len dir)
              (do_translation inet_addr now n t p len dir)
      unfolding do_translation_at do_translation
      do_translation_lem dir =
          let (same, nodes', holds, shorter) =
            translates (tcp_hdr p) dir (nat_get_mapping_from_packet_at heads fuel m p dir)
              (nat_get_mapping_from_packet t p dir)
              (nat_get_mapping_from_packet_at_lem fuel p dir f) in
          (
            ap (λ q. ip_send_packet (update_checksums q (tcp_hdr p)) len ∷ []) same,
            nodes',
            holds,
            shorter,
          )

      translate_packet_lem :
          (dir : Dir)
          → Same heads
              (suc count)
              (translate_packet_at heads inet_addr fuel now n m p len dir)
              (translate_packet inet_addr now n t p len dir)
      unfolding translate_packet_at translate_packet
      translate_packet_lem dir_invalid = stays _ _ refl
      translate_packet_lem dir_in = elim (Bool-cases (protocol p == ipproto_tcp)) [
        | inl e ↦ rw e (do_translation_lem dir_in)
        | inr e ↦ rw e (stays _ _ refl)
      ]
      translate_packet_lem dir_out = elim (Bool-cases (protocol p == ipproto_tcp)) [
        | inl e ↦ rw e (do_translation_lem dir_out)
        | inr e ↦ rw e (stays _ _ refl)
      ]

      -- `nat_translate_packet` of nat.c sends from the memory what it sends from the table, and the memory
      -- holds the table again.
      pub nat_translate_packet_at_lem :
          Same heads
            (suc count)
            (nat_translate_packet_at heads inet_addr fuel now n m p len)
            (nat_translate_packet inet_addr now n t p len)
      unfolding nat_translate_packet_at nat_translate_packet
      nat_translate_packet_at_lem =
          rw same_direction (translate_packet_lem (get_packet_direction inet_addr t p))
