-- ===== src/NatStack/Hashed/Store/Events.antt =====
-- Packets, timeouts and the destruction of the table in any order: what nat_new_2.c does with them on the
-- memory and on the lists.
use mathlib.Core.Option
use net_working_mini_net.Base.{ℕ, ◌≡◌, ◌≢◌, Option, some, List, [], ◌∷◌, ◌++◌}
use net_working_mini_net.ListHead.{Ptr}
use net_working_mini_net.Rings.Short.{IsUnused}
use net_working_mini_net.Packet.{Bytes}
use net_working_mini_net.NatStack.{Memory, Table, Action}
use net_working_mini_net.NatStack.Ports.{Pool}
use net_working_mini_net.NatStack.Hashed.{nat_translate_packet, nat_timeout}
use net_working_mini_net.NatStack.Hashed.Start.{nat_table_destroy}
use net_working_mini_net.NatStack.Hashed.Store.{
  nat_translate_packet_at, nat_timeout_at, nat_table_destroy_at,
}

-- A packet, with the time and the two addresses that `malloc` gives for it, a timeout, or the
-- destruction.
pub data Event : Type 0 where
  packet : (now : ℕ) (n n' : Ptr) → Bytes → (len : ℕ) → Event
  timeout : (now : ℕ) → Event
  destroy : Event

-- The calls of one event stand before those of the later ones.
abbrev pub prepend : {T : Type 0} → List Action → T × List Action → T × List Action
prepend sent r = (r.0, sent ++ r.1)

module _ (inet_addr : List ℕ → ℕ) where
  unfoldable pub handle : Table → Event → Option (Table × List Action)
  handle t (packet now n n' p len) = nat_translate_packet inet_addr now n n' t p len
  handle t (timeout now) = some (nat_timeout now t, [])
  handle t destroy = some (nat_table_destroy t, [])

  -- The table at the end, and the calls that were made; `none` if NULL was dereferenced.
  unfoldable pub handle_all : Table → List Event → Option (Table × List Action)
  unfolding handle
  handle_all t [] = some (t, [])
  handle_all t (e ∷ es) =
      Option.bind (handle t e) (λ r. Option.map (prepend r.1) (handle_all r.0 es))

  module _ (heads : ℕ → Ptr) (fuel : ℕ) where
    unfoldable pub handle_at : Memory → Event → Option (Memory × List Action)
    handle_at m (packet now n n' p len) =
        nat_translate_packet_at heads inet_addr fuel now n n' m p len
    handle_at m (timeout now) = some (nat_timeout_at heads fuel now m, [])
    handle_at m destroy = some (nat_table_destroy_at heads fuel m, [])

    unfoldable pub handle_all_at : Memory → List Event → Option (Memory × List Action)
    unfolding handle_at
    handle_all_at m [] = some (m, [])
    handle_all_at m (e ∷ es) =
        Option.bind (handle_at m e) (λ r. Option.map (prepend r.1) (handle_all_at r.0 es))

    -- `malloc` gives two nodes that are in none of the lists at that time.
    abbrev pub IsUnusedFor : Memory → Event → Type 0
    IsUnusedFor m (packet now n n' p len) =
        IsUnused heads fuel m.store n × IsUnused heads fuel m.store n' × (n' ≢ n)
    IsUnusedFor m (timeout now) = Unit
    IsUnusedFor m destroy = Unit

    abbrev pub AllUnused : Memory → List Event → Type 0
    AllUnused m [] = Unit
    AllUnused m (e ∷ es) =
        IsUnusedFor m e × ((r : Memory × List Action) → handle_at m e ≡ some r → AllUnused r.0 es)

-- The calls that were made, and the pool at the end.
abbrev pub outcome_at : Memory × List Action → List Action × Pool
outcome_at r = (r.1, r.0.assigned_ports)

abbrev pub outcome : Table × List Action → List Action × Pool
outcome r = (r.1, r.0.assigned_ports)
