-- ===== src/Switch/Mac/Store/Search.antt =====
-- `lookup_port` of mac.c on the memory.
use mathlib.Core.Option
use net_working_mini_net.Base.{ℕ, ◌≡◌, ap, ◌∙◌, Option, none, some, List, arith}
use net_working_mini_net.Hash.{hash_8bits}
use net_working_mini_net.Buckets.{first_in}
use net_working_mini_net.ListHead.{Ptr}
use net_working_mini_net.Rings.Stores.{Stores, IsEnough, first_node_lem, first_in-content}
use net_working_mini_net.Switch.{MacPortEntry, MacPortMap}
use net_working_mini_net.Switch.Mac.{lookup_port, entry_has}
use net_working_mini_net.Switch.Mac.Store.{Store, lookup_port_at}

found_iface :
    (s : Store) (o : Option Ptr) {o' : Option MacPortEntry}
    → Option.map s.entry o ≡ o'
    → Option.map (λ n. (s.entry n).iface) o ≡ Option.map (λ e. e.iface) o'
found_iface s none e = ap (Option.map (λ e. e.iface)) e
found_iface s (some n) e = ap (Option.map (λ e. e.iface)) e

-- On memory that stores the table, the loops of `lookup_port` return what the model of the table returns,
-- if the fuel exceeds the length of every list.
pub lookup_port_at_lem :
    (heads : ℕ → Ptr) (fuel : ℕ) (s : Store) (t : MacPortMap) (nodes : ℕ → List Ptr) (mac : List ℕ)
    → Stores heads s t nodes
    → IsEnough fuel nodes
    → lookup_port_at heads fuel s mac ≡ lookup_port t mac
unfolding lookup_port_at lookup_port
lookup_port_at_lem heads fuel s t nodes mac r f =
    let same = first_in-content heads s t nodes r (entry_has mac) hash_8bits 0 (omega arith) in
    let test = λ (n : Ptr). entry_has mac (s.entry n) in
    let found = first_node_lem heads s t nodes r fuel f test hash_8bits 0 (omega arith) in
    ap (Option.map (λ n. (s.entry n).iface)) found
    ∙ found_iface s (first_in test hash_8bits 0 nodes) same
