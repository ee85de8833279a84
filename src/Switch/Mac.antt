-- ===== src/Switch/Mac.antt =====
-- switch_stack/mac.c: the forwarding table. The current time is an argument, and memory is not
-- exhausted: `malloc` succeeds.
pub mod Lookup
pub mod Aging
pub mod Store
pub mod Dump
use mathlib.Core.Option
use net_working_mini_net.Base.{
  ℕ, zero, suc, ◌+◌, ◌-◌, ◌%◌, ◌^◌, Bool, true, false, ◌&&◌, Option, none, some, List, [], ◌∷◌,
  ◌==◌, ltb, leb, if◌then◌else◌,
}
use net_working_mini_net.Hash.{hash_8bits}
use net_working_mini_net.Buckets.{set_bucket, add_tail, first_in, delete_in}
use net_working_mini_net.Switch.{Iface, MacPortEntry, MacPortMap, eq_bytes}

abbrev pub mac_port_timeout : ℕ
mac_port_timeout = 30

-- `init_list_head` on each list of the zeroed table.
unfoldable pub init_mac_port_table : MacPortMap
init_mac_port_table i = []

-- Every entry of every list is deleted and freed.
unfoldable pub destory_mac_port_table : MacPortMap → MacPortMap
destory_mac_port_table t = delete_in (λ _. true) hash_8bits 0 t

-- The comparison in the body of the lookup loop.
unfoldable pub entry_has : List ℕ → MacPortEntry → Bool
unfolding eq_bytes
entry_has mac e = eq_bytes e.mac mac

unfoldable pub lookup_port : MacPortMap → List ℕ → Option Iface
unfolding entry_has
lookup_port t mac = Option.map (λ e. e.iface) (first_in (entry_has mac) hash_8bits 0 t)

unfoldable pub insert_mac_port : (now : ℕ) → MacPortMap → List ℕ → Iface → MacPortMap
unfolding add_tail
insert_mac_port now t mac iface = add_tail t 0 (record { mac = mac; iface = iface; visited = now })

-- `(int)(now - entry->visited) >= MAC_PORT_TIMEOUT`: the low 32 bits of the difference, as a signed
-- number.
unfoldable pub is_aged : (now : ℕ) → MacPortEntry → Bool
is_aged now e =
    let d = (now % 2 ^ 32 + 2 ^ 32 - e.visited % 2 ^ 32) % 2 ^ 32 in
    leb mac_port_timeout d && ltb d (2 ^ 31)

-- One list of the sweep: the first aged entry is deleted, and the loop returns its interface's index.
unfoldable pub sweep_list : (now : ℕ) → List MacPortEntry → Option (ℕ × List MacPortEntry)
sweep_list now [] = none
sweep_list now (e ∷ es) =
    let rest = Option.map (λ (r : ℕ × List MacPortEntry). (r.0, e ∷ r.1)) (sweep_list now es) in
    if is_aged now e then some (e.iface.index, es) else rest

-- The loop ends at the list from which an entry was deleted; `rest` is what the later lists give.
abbrev pub return_or :
    Option (ℕ × List MacPortEntry) → (i : ℕ) → MacPortMap → (rest : ℕ × MacPortMap) → ℕ × MacPortMap
return_or none i t rest = rest
return_or (some (n, es)) i t rest = (n, set_bucket t i es)

unfoldable pub sweep_from : (now left i : ℕ) → MacPortMap → ℕ × MacPortMap
sweep_from now zero i t = (0, t)
sweep_from now (suc left) i t = return_or (sweep_list now (t i)) i t (sweep_from now left (suc i) t)

unfoldable pub sweep_aged_mac_port_entry : (now : ℕ) → MacPortMap → ℕ × MacPortMap
sweep_aged_mac_port_entry now t = sweep_from now hash_8bits 0 t

-- The loop of the sweeping thread, at the times at which its rounds run.
unfoldable pub sweeping_mac_port_thread : List ℕ → MacPortMap → MacPortMap
sweeping_mac_port_thread [] t = t
sweeping_mac_port_thread (now ∷ times) t =
    sweeping_mac_port_thread times (sweep_aged_mac_port_entry now t).1
