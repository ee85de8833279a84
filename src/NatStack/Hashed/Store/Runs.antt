-- ===== src/NatStack/Hashed/Store/Runs.antt =====
-- Runs of nat_new_2.c on the memory and on the lists.
use mathlib.Core.Option
use mathlib.Core.Path.{subst}
use net_working_mini_net.Base.{
  ℕ, suc, ◌+◌, ◌*◌, ◌<◌, ◌≡◌, refl, ap₂, true, Option, none, some, List, [], ◌∷◌, ◌++◌, length,
  arith,
}
use net_working_mini_net.Hash.{hash_8bits}
use net_working_mini_net.Buckets.{delete_in}
use net_working_mini_net.ListHead.{Ptr}
use net_working_mini_net.Rings
use net_working_mini_net.Rings.Stores.{Stores, IsEnough}
use net_working_mini_net.Rings.Short.{Short, delete_in-Short, Stores-IsEnough, IsUnused-IsFresh}
use net_working_mini_net.Rings.Init.{init_heads-Stores}
use net_working_mini_net.NatStack.{Iface, Mapping, Memory, Table, Action}
use net_working_mini_net.NatStack.Holds.{Holds}
use net_working_mini_net.NatStack.Expiry.Lists.{expire_from-Short}
use net_working_mini_net.NatStack.Linear.{ready}
use net_working_mini_net.NatStack.Hashed.{nat_timeout, is_over}
use net_working_mini_net.NatStack.Hashed.Start.{table_of_ifaces, nat_table_init, nat_table_destroy}
use net_working_mini_net.NatStack.Hashed.Store.{memory_of_ifaces, nat_table_init_at}
use net_working_mini_net.NatStack.Hashed.Store.Holds.{Kept, Same, SameOption}
use net_working_mini_net.NatStack.Hashed.Store.Packets.{nat_translate_packet_at_lem}
use net_working_mini_net.NatStack.Hashed.Store.Delete.{
  nat_timeout_at-Kept, nat_table_destroy_at-Kept,
}
use net_working_mini_net.NatStack.Hashed.Store.Events.{
  Event, packet, timeout, destroy, prepend, handle, handle_all, handle_at, handle_all_at,
  IsUnusedFor, AllUnused, outcome, outcome_at,
}

module _ (heads : ℕ → Ptr) where
  -- Two runs that go on in the same way.
  bind-SameOption :
      (c d : ℕ) (o : Option (Memory × List Action)) (o' : Option (Table × List Action))
      → (f : Memory × List Action → Option (Memory × List Action))
        (g : Table × List Action → Option (Table × List Action))
      → SameOption heads c o o'
      → ((r : Memory × List Action) (r' : Table × List Action)
          → o ≡ some r
          → Same heads c r r'
          → SameOption heads d (f r) (g r'))
      → SameOption heads d (Option.bind o f) (Option.bind o' g)
  unfolding Option.bind
  bind-SameOption c d none none f g s next = tt
  bind-SameOption c d none (some r') f g s next = elim s [ ]
  bind-SameOption c d (some r) none f g s next = elim s [ ]
  bind-SameOption c d (some r) (some r') f g s next = next r r' refl s

  prepend-SameOption :
      (d : ℕ) (sent sent' : List Action) (o : Option (Memory × List Action))
      (o' : Option (Table × List Action))
      → sent ≡ sent'
      → SameOption heads d o o'
      → SameOption heads d (Option.map (prepend sent) o) (Option.map (prepend sent') o')
  prepend-SameOption d sent sent' none none e s = tt
  prepend-SameOption d sent sent' none (some r') e s = elim s [ ]
  prepend-SameOption d sent sent' (some r) none e s = elim s [ ]
  prepend-SameOption d sent sent' (some r) (some r') e s =
      (ap₂ (λ xs ys. xs ++ ys) e s.0, s.1, s.2, s.3)

  module _ (inet_addr : List ℕ → ℕ) (fuel : ℕ) where
    handle_at-Same :
        (count : ℕ) (m : Memory) (t : Table) (nodes : ℕ → List Ptr) (e : Event)
        → IsEnough fuel nodes
        → Kept heads m t nodes
        → Short (suc (suc count)) t.nat_mapping_list
        → Short count t.nat_mapping_list
        → IsUnusedFor inet_addr heads fuel m e
        → SameOption heads
            (suc (suc count))
            (handle_at inet_addr heads fuel m e)
            (handle inet_addr t e)
    unfolding handle_at handle nat_timeout nat_table_destroy
    handle_at-Same count m t nodes (packet now n n' p len) enough r longer short
          (unused, unused', ne) =
        let fresh =
          IsUnused-IsFresh heads m.store t.nat_mapping_list nodes r.holds.stores fuel enough in
        nat_translate_packet_at_lem heads inet_addr fuel now n n' m t nodes r enough
          (fresh n unused) (fresh n' unused') ne count short p len
    handle_at-Same count m t nodes (timeout now) enough r longer short unused = (
      refl,
      delete_in (λ a. is_over now (m.store.entry a)) hash_8bits 0 nodes,
      nat_timeout_at-Kept heads fuel m t nodes r enough now,
      expire_from-Short (is_over now) (suc (suc count)) hash_8bits 0 t longer,
    )
    handle_at-Same count m t nodes destroy enough r longer short unused = (
      refl,
      delete_in (λ a. true) hash_8bits 0 nodes,
      nat_table_destroy_at-Kept heads fuel m t nodes r enough,
      delete_in-Short (λ e. true) (suc (suc count)) hash_8bits 0 t.nat_mapping_list longer,
    )

    handle_all_at-Same :
        (es : List Event) (count : ℕ) (m : Memory) (t : Table) (nodes : ℕ → List Ptr)
        → count + 2 * length es < fuel
        → Kept heads m t nodes
        → Short count t.nat_mapping_list
        → AllUnused inet_addr heads fuel m es
        → SameOption heads
            (count + 2 * length es)
            (handle_all_at inet_addr heads fuel m es)
            (handle_all inet_addr t es)
    unfolding handle_all_at handle_all
    handle_all_at-Same [] count m t nodes b r short u =
        (refl, nodes, r, λ i. omega (arith, short i))
    handle_all_at-Same (e ∷ es) count m t nodes b r short u =
        let enough =
          Stores-IsEnough heads m.store t.nat_mapping_list nodes r.holds.stores fuel count
            (omega arith) short in
        let same =
          handle_at-Same count m t nodes e enough r (λ i. omega (arith, short i)) short u.0 in
        let size : suc (suc count) + 2 * length es ≡ count + 2 * length (e ∷ es) = omega arith in
        bind-SameOption (suc (suc count)) (count + 2 * length (e ∷ es)) _ _ _ _ same λ q q' eq s.
          let (sent, nodes', kept, short') = s in
          prepend-SameOption (count + 2 * length (e ∷ es)) q.1 q'.1 _ _ sent (
            subst
              (λ d.
                SameOption heads d (handle_all_at inet_addr heads fuel q.0 es)
                  (handle_all inet_addr q'.0 es))
              size
              (handle_all_at-Same es (suc (suc count)) q.0 q'.0 nodes' (omega arith) kept short'
                (u.1 q eq)))

  -- The lists of the memory are empty, and the two interfaces were found.
  ifaces_found :
      (s : Rings.Store Mapping) (internal external : Option Iface) (m : Memory)
      → Stores heads s (λ i. []) (λ i. [])
      → memory_of_ifaces heads s internal external ≡ ready m
      → (t : Table) × (table_of_ifaces internal external ≡ ready t)
        × Kept heads m t (λ i. [])
        × Short 0 t.nat_mapping_list
  unfolding memory_of_ifaces table_of_ifaces
  ifaces_found s none external m r e = absurd (ground arith)
  ifaces_found s (some a) none m r e = absurd (ground arith)
  ifaces_found s (some a) (some b) m r e =
      let t : Table = record {
        nat_mapping_list = λ j. [];
        internal_iface = a;
        external_iface = b;
        assigned_ports = λ k. 0;
      } in
      let built : Memory = record {
        store = s;
        internal_iface = a;
        external_iface = b;
        assigned_ports = λ k. 0;
      } in
      let same : built ≡ m = cc in
      let holds : Holds heads built t (λ i. []) = record {
        stores = r;
        internal = refl;
        external = refl;
        ports = refl;
      } in
      (
        t,
        refl,
        subst (λ m. Kept heads m t (λ i. [])) same
            (record { holds = holds; addressed = λ i b a h. absurd (ground arith) }),
        λ i. omega arith,
      )

  observed :
      (count : ℕ) (o : Option (Memory × List Action)) (o' : Option (Table × List Action))
      → SameOption heads count o o'
      → Option.map outcome_at o ≡ Option.map outcome o'
  observed count none none s = refl
  observed count none (some r') s = elim s [ ]
  observed count (some r) none s = elim s [ ]
  observed count (some r) (some r') s =
      let (sent, nodes, kept, short) = s in ap₂ (λ xs ys. some (xs, ys)) sent kept.holds.ports

  -- If the list heads have different addresses, `nat_table_init` of nat_new_2.c finds both interfaces,
  -- `malloc` gives two different nodes that are in no list, and the fuel exceeds twice the number of
  -- events, then for any sequence of packets, timeouts and destructions the loops over the memory
  -- dereference NULL exactly where the model of the lists says so, and else make the calls of the model, in
  -- order, with the same packets, and end with its pool.
  pub handle_all_at-handle_all :
      (inet_addr : List ℕ → ℕ) (fuel : ℕ) (memory : Rings.Store Mapping) (ifaces : List Iface)
      (m : Memory) (es : List Event)
      → ((i j : ℕ) → heads i ≡ heads j → i ≡ j)
      → nat_table_init_at heads memory ifaces ≡ ready m
      → AllUnused inet_addr heads fuel m es
      → 2 * length es < fuel
      → (t : Table) × (nat_table_init ifaces ≡ ready t)
        × (Option.map outcome_at (handle_all_at inet_addr heads fuel m es)
            ≡ Option.map outcome (handle_all inet_addr t es))
  unfolding nat_table_init_at nat_table_init
  handle_all_at-handle_all inet_addr fuel memory ifaces m es unlike e unused f =
      let (t, starts, r, short) = ifaces_found _ _ _ m (init_heads-Stores heads unlike memory) e in
      (
        t,
        starts,
        observed (0 + 2 * length es) _ _
            (handle_all_at-Same inet_addr fuel es 0 m t (λ i. []) (omega arith) r short unused),
      )
