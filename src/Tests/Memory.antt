-- ===== src/Tests/Memory.antt =====
-- The theorems on lists in memory: the forwarding table, and the example program.
use net_working_mini_net.Base.{ℕ, ◌+◌, ◌≡◌, ◌≢◌, List, [], ◌∷◌, map, arith}
use net_working_mini_net.ListHead.{Ptr, Links}
use net_working_mini_net.ListHead.Chain.{IsRing}
use net_working_mini_net.ListHead.Example.{Memory, example}
use net_working_mini_net.ListHead.Example.Prints.{from, example-prints}
use net_working_mini_net.Switch.{Iface}
use net_working_mini_net.Switch.Mac.{lookup_port, init_mac_port_table}
use net_working_mini_net.Switch.Mac.Store.{
  Store, init_mac_port_table_at, lookup_port_at, insert_mac_port_at, sweep_at,
}
use net_working_mini_net.Rings.Stores.{Stores}
use net_working_mini_net.Rings.Short.{IsUnused}
use net_working_mini_net.Rings.Init.{init_heads-Stores}
use net_working_mini_net.ListHead.Walk.{list_for_each_entry_lem}
use net_working_mini_net.Switch.Mac.Store.Runs.{
  Run, Call, insert, sweep, started, inserted, swept, table_after, Run-lookup_port,
}

abbrev port : Iface
port = record { fd = 3; index = 1; mac = []; name = [] }

abbrev nowhere : Links
nowhere = record { next = λ a. 0; prev = λ a. 0 }

-- The head of the list `i` is at the address `i`.
abbrev heads : ℕ → Ptr
heads i = i

abbrev nodes : ℕ → List Ptr
nodes i = []

abbrev cleared : Store
cleared = record { links = nowhere; entry = λ a. record { mac = []; iface = port; visited = 0 } }

abbrev empty : Store
empty = init_mac_port_table_at heads cleared

empty-Stores : Stores heads empty init_mac_port_table nodes
unfolding init_mac_port_table_at init_mac_port_table
empty-Stores = init_heads-Stores heads (λ i j e. e) cleared

-- The memory with one entry, at the address 1000.
abbrev one_entry : Store
one_entry = insert_mac_port_at heads 5 1000 empty (7 ∷ []) port

unused : IsUnused heads 1 empty 1000
unused i b =
    let nothing =
      list_for_each_entry_lem 1 empty.links i [] (empty-Stores.ring i b) (omega arith) in
    rw nothing (ground arith)

-- An insertion at 5 and a sweep at 20.
abbrev calls : List Call
calls = sweep 20 ∷ insert 5 (7 ∷ []) port ∷ []

run : Run heads cleared calls (sweep_at heads 2 20 one_entry).1
run = swept (inserted started 5 1000 (7 ∷ []) port unused) 20

Run-lookup_port_example :
    lookup_port_at heads 3 (sweep_at heads 2 20 one_entry).1 (7 ∷ [])
    ≡ lookup_port (table_after calls) (7 ∷ [])
Run-lookup_port_example =
    Run-lookup_port heads cleared calls (sweep_at heads 2 20 one_entry).1 (7 ∷ []) (λ i j e. e) run

-- The head of the example's list is at 0, its nodes at 1, 2, ...
abbrev malloc : ℕ → Ptr
malloc i = i + 1

abbrev zeroed : Memory
zeroed = record { links = nowhere; number = λ a. 0 }

apart : (i j : ℕ) → malloc i ≡ malloc j → i ≡ j
apart i j e = omega arith

new : (i : ℕ) → malloc i ≢ 0
new i e = omega arith

example-prints_example :
    ((example malloc 11 0 zeroed).0 ≡ from 10 0)
    × ((example malloc 11 0 zeroed).1 ≡ 1 ∷ 3 ∷ 5 ∷ 7 ∷ 9 ∷ [])
    × IsRing (example malloc 11 0 zeroed).2.links 0 (map malloc (1 ∷ 3 ∷ 5 ∷ 7 ∷ 9 ∷ []))
example-prints_example = example-prints malloc 11 0 zeroed apart new (omega arith)
