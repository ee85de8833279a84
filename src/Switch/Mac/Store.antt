-- ===== src/Switch/Mac/Store.antt =====
-- switch_stack/mac.c on the memory itself: the entries are nodes of 256 circular lists of list.h. The
-- addresses of the list heads are a parameter, and so is the address that `malloc` gives.
pub mod Search
pub mod Sweep
pub mod Runs
use mathlib.Core.Option
use net_working_mini_net.Base.{ℕ, true, Option, none, some, List}
use net_working_mini_net.Hash.{hash_8bits}
use net_working_mini_net.ListHead.{Ptr, list_delete_entry}
use net_working_mini_net.Rings
use net_working_mini_net.Rings.{init_heads, add_node, first_node, delete_lists}
use net_working_mini_net.Switch.{Iface, MacPortEntry}
use net_working_mini_net.Switch.Mac.{entry_has, is_aged}

abbrev pub Store : Type 0
Store = Rings.Store MacPortEntry

-- `malloc` gives the address `n`.
unfoldable pub insert_mac_port_at :
    (heads : ℕ → Ptr) (now : ℕ) (n : Ptr) → Store → (mac : List ℕ) → Iface → Store
unfolding add_node
insert_mac_port_at heads now n s mac iface =
    add_node (heads 0) n (record { mac = mac; iface = iface; visited = now }) s

-- The entry that the sweep found is deleted, and its interface's index returned.
unfoldable pub delete_found : Store → Option Ptr → ℕ × Store
delete_found s none = (0, s)
delete_found s (some n) =
    ((s.entry n).iface.index, record s { links = list_delete_entry s.links n })

module _ (heads : ℕ → Ptr) where
  unfoldable pub init_mac_port_table_at : Store → Store
  unfolding init_heads
  init_mac_port_table_at s = record s { links = init_heads heads hash_8bits 0 s.links }

  module _ (fuel : ℕ) where
    unfoldable pub lookup_port_at : Store → (mac : List ℕ) → Option Iface
    unfolding first_node
    lookup_port_at s mac =
        Option.map (λ n. (s.entry n).iface)
          (first_node heads fuel (λ n. entry_has mac (s.entry n)) hash_8bits 0 s)

    unfoldable pub sweep_at : (now : ℕ) → Store → ℕ × Store
    unfolding first_node delete_found
    sweep_at now s =
        delete_found s (first_node heads fuel (λ n. is_aged now (s.entry n)) hash_8bits 0 s)

    -- Every entry is deleted, and its node freed.
    unfoldable pub destory_at : Store → Store
    unfolding delete_lists
    destory_at s = record s { links = delete_lists heads fuel (λ n. true) hash_8bits 0 s.links }
