-- ===== src/NatStack/Linear/Store/Runs.antt =====
-- Runs of nat.c on the memory and on the lists.
use mathlib.Core.Option
use mathlib.Core.Path.{subst}
use net_working_mini_net.Base.{
  ℕ, suc, ◌+◌, ◌<◌, ◌≡◌, refl, ap₂, true, Option, none, some, List, [], ◌∷◌, ◌++◌, length, arith,
}
use net_working_mini_net.Hash.{hash_8bits}
use net_working_mini_net.Buckets.{delete_in}
use net_working_mini_net.ListHead.{Ptr}
use net_working_mini_net.Rings
use net_working_mini_net.Rings.Stores.{Stores}
use net_working_mini_net.Rings.Short.{Short, delete_in-Short, Stores-IsEnough, IsUnused-IsFresh}
use net_working_mini_net.Rings.Init.{init_heads-Stores}
use net_working_mini_net.Rings.Delete.{delete_lists-Stores}
use net_working_mini_net.Packet.{Bytes}
use net_working_mini_net.NatStack.{Iface, Dir, Mapping, Table, Memory, is_expired}
use net_working_mini_net.NatStack.Linear.{
  ready, table_of_ifaces, nat_get_mapping_from_packet, nat_timeout, nat_table_init,
  nat_table_destroy,
}
use net_working_mini_net.NatStack.Expiry.Lists.{expire_from-Short}
use net_working_mini_net.NatStack.Holds.{Holds, Same}
use net_working_mini_net.NatStack.Linear.Store.{
  memory_of_ifaces, nat_table_init_at, nat_get_mapping_from_packet_at, nat_timeout_at,
  nat_table_destroy_at,
}
use net_working_mini_net.NatStack.Linear.Store.Holds.{
  nat_get_mapping_from_packet_at_lem, nat_translate_packet_at_lem,
}
use net_working_mini_net.NatStack.Expiry.Rings.{timeout_from-Holds}
use net_working_mini_net.NatStack.Linear.Store.Events.{
  Event, packet, timeout, destroy, handle, handle_all, handle_at, handle_all_at, IsUnusedFor,
  AllUnused,
}

module _ (heads : ℕ → Ptr) (inet_addr : List ℕ → ℕ) (fuel : ℕ) where
  handle_at-Same :
      (count : ℕ) (m : Memory) (t : Table) (nodes : ℕ → List Ptr) (e : Event)
      → count < fuel
      → Holds heads m t nodes
      → Short count t.nat_mapping_list
      → IsUnusedFor inet_addr heads fuel m e
      → Same heads (suc count) (handle_at inet_addr heads fuel m e) (handle inet_addr t e)
  unfolding handle_at handle nat_timeout_at nat_timeout nat_table_destroy_at nat_table_destroy
  handle_at-Same count m t nodes (packet now n p len) b r short unused =
      let enough =
        Stores-IsEnough heads m.store t.nat_mapping_list nodes r.stores fuel count b short in
      let fresh =
        IsUnused-IsFresh heads m.store t.nat_mapping_list nodes r.stores fuel enough n unused in
      nat_translate_packet_at_lem heads m t nodes r inet_addr now n fresh count short p fuel len
        enough
  handle_at-Same count m t nodes (timeout now) b r short unused =
      let enough =
        Stores-IsEnough heads m.store t.nat_mapping_list nodes r.stores fuel count b short in
      (
        refl,
        delete_in (λ a. is_expired now (m.store.entry a)) hash_8bits 0 nodes,
        timeout_from-Holds (is_expired now) heads fuel hash_8bits 0 m t nodes r enough
            (omega arith),
        expire_from-Short (is_expired now) (suc count) hash_8bits 0 t (λ i. omega (arith, short i)),
      )
  handle_at-Same count m t nodes destroy b r short unused =
      let enough =
        Stores-IsEnough heads m.store t.nat_mapping_list nodes r.stores fuel count b short in
      (
        refl,
        delete_in (λ a. true) hash_8bits 0 nodes,
        record {
          stores =
              delete_lists-Stores heads fuel (λ e. true) hash_8bits 0 m.store t.nat_mapping_list
                nodes r.stores enough (omega arith);
          internal = r.internal;
          external = r.external;
          ports = r.ports;
        },
        delete_in-Short (λ e. true) (suc count) hash_8bits 0 t.nat_mapping_list
            (λ i. omega (arith, short i)),
      )

  handle_all_at-Same :
      (es : List Event) (count : ℕ) (m : Memory) (t : Table) (nodes : ℕ → List Ptr)
      → count + length es < fuel
      → Holds heads m t nodes
      → Short count t.nat_mapping_list
      → AllUnused inet_addr heads fuel m es
      → Same heads
          (count + length es)
          (handle_all_at inet_addr heads fuel m es)
          (handle_all inet_addr t es)
  unfolding handle_all_at handle_all
  handle_all_at-Same [] count m t nodes b r short u = (refl, nodes, r, λ i. omega (arith, short i))
  handle_all_at-Same (e ∷ es) count m t nodes b r short u =
      let (now, nodes₁, r₁, short₁) = handle_at-Same count m t nodes e (omega arith) r short u.0 in
      let (later, nodes₂, r₂, short₂) =
        handle_all_at-Same es (suc count) _ _ nodes₁ (omega arith) r₁ short₁ u.1 in
      (ap₂ (λ xs ys. xs ++ ys) now later, nodes₂, r₂, λ i. omega (arith, short₂ i))

module _ (heads : ℕ → Ptr) where
  -- The lists of the memory are empty, and the two interfaces were found.
  ifaces_found :
      (s : Rings.Store Mapping) (internal external : Option Iface) (m : Memory)
      → Stores heads s (λ i. []) (λ i. [])
      → memory_of_ifaces heads s internal external ≡ ready m
      → (t : Table) × (table_of_ifaces internal external ≡ ready t)
        × Holds heads m t (λ i. [])
        × Short 0 t.nat_mapping_list
  unfolding memory_of_ifaces table_of_ifaces
  ifaces_found s internal none m r e = absurd (ground arith)
  ifaces_found s none (some b) m r e = absurd (ground arith)
  ifaces_found s (some a) (some b) m r e =
      let t : Table = record {
        nat_mapping_list = λ j. [];
        internal_iface = a;
        external_iface = b;
        assigned_ports = λ k. 0;
      } in
      let built : Memory = record {
        store = s;
        internal_iface = a;
        external_iface = b;
        assigned_ports = λ k. 0;
      } in
      let same : built ≡ m = cc in
      (
        t,
        refl,
        subst (λ m. Holds heads m t (λ i. [])) same
            (record { stores = r; internal = refl; external = refl; ports = refl }),
        λ i. omega arith,
      )

  module _ (unlike : (i j : ℕ) → heads i ≡ heads j → i ≡ j) where
    -- If the list heads have different addresses, `nat_table_init` of nat.c finds both interfaces,
    -- `malloc` gives nodes that are in no list, and the fuel exceeds the number of events, then after any
    -- sequence of packets, timeouts and destructions the loops over the memory have made the calls that
    -- the model of the lists makes, in order, with the same packets; they have the same ports in the pool,
    -- and find for every further packet the mapping that the model finds.
    pub handle_all_at_lem :
        (inet_addr : List ℕ → ℕ) (fuel : ℕ) (memory : Rings.Store Mapping) (ifaces : List Iface)
        (m : Memory) (es : List Event)
        → nat_table_init_at heads memory ifaces ≡ ready m
        → AllUnused inet_addr heads fuel m es
        → length es < fuel
        → (t : Table) × (nat_table_init ifaces ≡ ready t)
          × ((handle_all_at inet_addr heads fuel m es).1 ≡ (handle_all inet_addr t es).1)
          × ((handle_all_at inet_addr heads fuel m es).0.assigned_ports
              ≡ (handle_all inet_addr t es).0.assigned_ports)
          × ((p : Bytes) (dir : Dir)
              → Option.map (handle_all_at inet_addr heads fuel m es).0.store.entry (
                  nat_get_mapping_from_packet_at heads fuel
                    (handle_all_at inet_addr heads fuel m es).0
                    p
                    dir)
                ≡ nat_get_mapping_from_packet (handle_all inet_addr t es).0 p dir)
    unfolding nat_table_init_at nat_table_init
    handle_all_at_lem inet_addr fuel memory ifaces m es e unused f =
        let (t, starts, r, short) =
          ifaces_found _ _ _ m (init_heads-Stores heads unlike memory) e in
        let (sent, nodes, r', short') =
          handle_all_at-Same heads inet_addr fuel es 0 m t (λ i. []) (omega arith) r short unused in
        let enough =
          Stores-IsEnough heads _ _ nodes r'.stores fuel (0 + length es) (omega arith) short' in
        (
          t,
          starts,
          sent,
          r'.ports,
          λ p dir. nat_get_mapping_from_packet_at_lem heads _ _ nodes r' fuel p dir enough,
        )
