-- ===== src/NatStack/Holds.antt =====
-- The memory that stands for a table of the NAT.
use net_working_mini_net.Base.{ℕ, ◌≡◌, List}
use net_working_mini_net.ListHead.{Ptr}
use net_working_mini_net.Rings.Stores.{Stores}
use net_working_mini_net.Rings.Short.{Short}
use net_working_mini_net.NatStack.{Table, Memory}

-- The lists of the table are stored, and the other fields are the same.
pub record Holds (heads : ℕ → Ptr) (m : Memory) (t : Table) (nodes : ℕ → List Ptr) : Type 0 where
  pub stores : Stores heads m.store t.nat_mapping_list nodes
  pub internal : m.internal_iface ≡ t.internal_iface
  pub external : m.external_iface ≡ t.external_iface
  pub ports : m.assigned_ports ≡ t.assigned_ports

-- Memory that holds the table, in lists of at most `count` nodes, next to the same result.
abbrev pub Same : {B : Type 0} → (heads : ℕ → Ptr) (count : ℕ) → Memory × B → Table × B → Type 0
Same heads count r r' =
    (r.1 ≡ r'.1)
    × (nodes : ℕ → List Ptr) × Holds heads r.0 r'.0 nodes
    × Short count r'.0.nat_mapping_list
