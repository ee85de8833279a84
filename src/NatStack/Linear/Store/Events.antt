-- ===== src/NatStack/Linear/Store/Events.antt =====
-- Packets, timeouts and the destruction of the table in any order: what nat.c does with them on the memory
-- and on the lists.
use net_working_mini_net.Base.{ℕ, List, [], ◌∷◌, ◌++◌}
use net_working_mini_net.ListHead.{Ptr}
use net_working_mini_net.Rings.Short.{IsUnused}
use net_working_mini_net.Packet.{Bytes}
use net_working_mini_net.NatStack.{Table, Memory, Action}
use net_working_mini_net.NatStack.Linear.{nat_translate_packet, nat_timeout, nat_table_destroy}
use net_working_mini_net.NatStack.Linear.Store.{
  nat_translate_packet_at, nat_timeout_at, nat_table_destroy_at,
}

-- A packet, with the time and the address that `malloc` gives for it, a timeout, or the destruction.
pub data Event : Type 0 where
  packet : (now : ℕ) (n : Ptr) → Bytes → (len : ℕ) → Event
  timeout : (now : ℕ) → Event
  destroy : Event

module _ (inet_addr : List ℕ → ℕ) where
  unfoldable pub handle : Table → Event → Table × List Action
  handle t (packet now n p len) = nat_translate_packet inet_addr now n t p len
  handle t (timeout now) = (nat_timeout now t, [])
  handle t destroy = (nat_table_destroy t, [])

  -- The table at the end, and the calls that were made.
  unfoldable pub handle_all : Table → List Event → Table × List Action
  unfolding handle
  handle_all t [] = (t, [])
  handle_all t (e ∷ es) =
      let (t₁, sent₁) = handle t e in let (t₂, sent₂) = handle_all t₁ es in (t₂, sent₁ ++ sent₂)

  module _ (heads : ℕ → Ptr) (fuel : ℕ) where
    unfoldable pub handle_at : Memory → Event → Memory × List Action
    handle_at m (packet now n p len) = nat_translate_packet_at heads inet_addr fuel now n m p len
    handle_at m (timeout now) = (nat_timeout_at heads fuel now m, [])
    handle_at m destroy = (nat_table_destroy_at heads fuel m, [])

    unfoldable pub handle_all_at : Memory → List Event → Memory × List Action
    unfolding handle_at
    handle_all_at m [] = (m, [])
    handle_all_at m (e ∷ es) =
        let (m₁, sent₁) = handle_at m e in
        let (m₂, sent₂) = handle_all_at m₁ es in (m₂, sent₁ ++ sent₂)

    -- `malloc` gives nodes that are in none of the lists at that time.
    abbrev pub IsUnusedFor : Memory → Event → Type 0
    IsUnusedFor m (packet now n p len) = IsUnused heads fuel m.store n
    IsUnusedFor m (timeout now) = Unit
    IsUnusedFor m destroy = Unit

    abbrev pub AllUnused : Memory → List Event → Type 0
    AllUnused m [] = Unit
    AllUnused m (e ∷ es) = IsUnusedFor m e × AllUnused (handle_at m e).0 es
