-- ===== src/Switch/Mac/Store/Runs.antt =====
-- Runs of mac.c on the memory, from the initialisation on, and what they are for the table.
use mathlib.Core.Option
use net_working_mini_net.Base.{
  ℕ, true, zero, suc, ◌≤◌, ◌≡◌, ap, sym, inl, inr, some, List, [], ◌∷◌, length, arith, Bool-cases,
  Option-cases,
}
use net_working_mini_net.Hash.{hash_8bits}
use net_working_mini_net.Buckets.{delete_in, add_tail}
use net_working_mini_net.ListHead.{Ptr}
use net_working_mini_net.Switch.{Iface, MacPortEntry, MacPortMap}
use net_working_mini_net.Switch.Mac.{
  destory_mac_port_table, init_mac_port_table, insert_mac_port, lookup_port, is_aged, sweep_list,
  sweep_from, sweep_aged_mac_port_entry,
}
use net_working_mini_net.Rings.Stores.{Stores, IsEnough}
use net_working_mini_net.Rings.Short.{
  IsUnused, Short, set_bucket-Short, add_tail-Short, delete_in-Short, Stores-IsEnough,
  IsUnused-IsFresh,
}
use net_working_mini_net.Rings.Init.{init_heads-Stores}
use net_working_mini_net.Rings.Insert.{add_node-Stores}
use net_working_mini_net.Rings.Delete.{delete_lists-Stores}
use net_working_mini_net.Switch.Mac.Store.{
  Store, init_mac_port_table_at, insert_mac_port_at, sweep_at, destory_at, lookup_port_at,
}
use net_working_mini_net.Switch.Mac.Store.Search.{lookup_port_at_lem}
use net_working_mini_net.Switch.Mac.Store.Sweep.{sweep_at-Swept}

-- An insertion, a sweep, or the deletion of the whole table.
pub data Call : Type 0 where
  insert : (now : ℕ) (mac : List ℕ) → Iface → Call
  sweep : (now : ℕ) → Call
  destroy : Call

-- The table after the initialisation and some calls, the last of them first.
unfoldable pub table_after : List Call → MacPortMap
table_after [] = init_mac_port_table
table_after (insert now mac iface ∷ calls) = insert_mac_port now (table_after calls) mac iface
table_after (sweep now ∷ calls) = (sweep_aged_mac_port_entry now (table_after calls)).1
table_after (destroy ∷ calls) = destory_mac_port_table (table_after calls)

-- The memory after the initialisation of any memory and the same calls, with one more round of fuel
-- than there were calls.
pub data Run (heads : ℕ → Ptr) (memory : Store) : List Call → Store → Type 0 where
  started : Run heads memory [] (init_mac_port_table_at heads memory)
  inserted :
      {calls : List Call} {s : Store}
      → Run heads memory calls s
      → (now : ℕ) (n : Ptr) (mac : List ℕ) (iface : Iface) → IsUnused heads (suc (length calls)) s n
      → Run heads memory (insert now mac iface ∷ calls) (insert_mac_port_at heads now n s mac iface)
  swept :
      {calls : List Call} {s : Store}
      → Run heads memory calls s
      → (now : ℕ)
      → Run heads memory (sweep now ∷ calls) (sweep_at heads (suc (length calls)) now s).1
  destroyed :
      {calls : List Call} {s : Store}
      → Run heads memory calls s
      → Run heads memory (destroy ∷ calls) (destory_at heads (suc (length calls)) s)

sweep_list-length :
    (now : ℕ) (l : List MacPortEntry) (r : ℕ × List MacPortEntry)
    → sweep_list now l ≡ some r
    → length r.1 ≤ length l
unfolding sweep_list
sweep_list-length now [] r e = absurd (Option.none-ne-some r e)
sweep_list-length now (x ∷ l) r e = elim (Bool-cases (is_aged now x)) [
  | inl t ↦
      let same : (x.iface.index, l) ≡ r = Option.some_inj.0 (rw t at e) in
      let m : l ≡ r.1 = ap (λ (p : ℕ × List MacPortEntry). p.1) same in rw (sym m) (omega arith)
  | inr t ↦ elim (Option-cases (sweep_list now l)) [
    | inl f ↦ absurd (Option.none-ne-some r (rw (t, f) at e))
    | inr (p, f) ↦
        let same : (p.0, x ∷ p.1) ≡ r = Option.some_inj.0 (rw (t, f) at e) in
        let m : x ∷ p.1 ≡ r.1 = ap (λ (p : ℕ × List MacPortEntry). p.1) same in
        let shorter = sweep_list-length now l p f in rw (sym m) (omega (arith, shorter))
  ]
]

sweep_from-Short :
    (now left i : ℕ) (count : ℕ) (t : MacPortMap)
    → Short count t
    → Short count (sweep_from now left i t).1
unfolding sweep_from
sweep_from-Short now zero i count t h = h
sweep_from-Short now (suc left) i count t h = elim (Option-cases (sweep_list now (t i))) [
  | inl e ↦ rw e (sweep_from-Short now left (suc i) count t h)
  | inr (r, e) ↦
      rw e (set_bucket-Short count i r.1 t h (omega (arith, h i, sweep_list-length now (t i) r e)))
]

-- The memory stores the table, in lists that are no longer than there were calls.
abbrev Simulated : (heads : ℕ → Ptr) → List Call → Store → Type 0
Simulated heads calls s =
    (nodes : ℕ → List Ptr) × Stores heads s (table_after calls) nodes
    × Short (length calls) (table_after calls)

enough :
    (heads : ℕ → Ptr) (calls : List Call) (s : Store) (nodes : ℕ → List Ptr)
    → Stores heads s (table_after calls) nodes
    → Short (length calls) (table_after calls)
    → IsEnough (suc (length calls)) nodes
enough heads calls s nodes r short =
    Stores-IsEnough heads s (table_after calls) nodes r (suc (length calls)) (length calls)
      (omega arith) short

module _ (heads : ℕ → Ptr) (unlike : (i j : ℕ) → heads i ≡ heads j → i ≡ j) where
  Run-Simulated :
      {memory : Store} {calls : List Call} {s : Store}
      → Run heads memory calls s
      → Simulated heads calls s
  unfolding table_after init_mac_port_table insert_mac_port sweep_aged_mac_port_entry
      destory_mac_port_table init_mac_port_table_at insert_mac_port_at destory_at
  Run-Simulated {memory} started =
      (λ i. [], init_heads-Stores heads unlike memory, λ i. omega arith)
  Run-Simulated (inserted {calls} {s} run now n mac iface unused) =
      let (nodes, r, short) = Run-Simulated run in
      let t = table_after calls in
      let fresh =
        IsUnused-IsFresh heads s t nodes r (suc (length calls)) (enough heads calls s nodes r short)
          n unused in
      (
        add_tail nodes 0 n,
        add_node-Stores heads s t nodes r n _ 0 (omega arith) fresh,
        add_tail-Short (length calls) 0 _ t short,
      )
  Run-Simulated (swept {calls} {s} run now) =
      let (nodes, r, short) = Run-Simulated run in
      let t = table_after calls in
      let (_, nodes', r') =
        sweep_at-Swept heads (suc (length calls)) s t nodes now r
          (enough heads calls s nodes r short) in
      (
        nodes',
        r',
        sweep_from-Short now hash_8bits 0 (suc (length calls)) t (λ i. omega (arith, short i)),
      )
  Run-Simulated (destroyed {calls} {s} run) =
      let (nodes, r, short) = Run-Simulated run in
      let t = table_after calls in
      (
        delete_in (λ n. true) hash_8bits 0 nodes,
        delete_lists-Stores heads (suc (length calls)) (λ e. true) hash_8bits 0 s t nodes r
            (enough heads calls s nodes r short) (omega arith),
        delete_in-Short (λ e. true) (suc (length calls)) hash_8bits 0 t
            (λ i. omega (arith, short i)),
      )

-- If the list heads have different addresses, then after every sequence of insertions, sweeps and
-- deletions of the whole table, on any memory, in which the insertions get nodes that are in none of the
-- lists, every lookup in the memory gives what a lookup in the table after the same calls gives. One
-- more round of fuel than there were calls is enough.
pub Run-lookup_port :
    (heads : ℕ → Ptr) (memory : Store) (calls : List Call) (s : Store) (mac : List ℕ)
    → ((i j : ℕ) → heads i ≡ heads j → i ≡ j)
    → Run heads memory calls s
    → lookup_port_at heads (suc (length calls)) s mac ≡ lookup_port (table_after calls) mac
Run-lookup_port heads memory calls s mac unlike run =
    let (nodes, r, short) = Run-Simulated heads unlike run in
    lookup_port_at_lem heads (suc (length calls)) s (table_after calls) nodes mac r
      (enough heads calls s nodes r short)
