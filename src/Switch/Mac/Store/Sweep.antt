-- ===== src/Switch/Mac/Store/Sweep.antt =====
-- `sweep_aged_mac_port_entry` of mac.c on the memory.
use mathlib.Core.Path.{subst}
use net_working_mini_net.Base.{
  ℕ, zero, suc, ◌+◌, ◌≤◌, ◌≡◌, refl, ap, ◌∙◌, sym, inl, inr, some, List, ◌++◌, find, arith,
  Option-cases,
}
use net_working_mini_net.Hash.{hash_8bits}
use net_working_mini_net.Buckets.{set_bucket, first_in}
use net_working_mini_net.Buckets.DropFirst.{drop_first}
use net_working_mini_net.ListHead.{Ptr}
use net_working_mini_net.Rings.Stores.{Stores, IsEnough, first_node_lem, find-content}
use net_working_mini_net.Rings.Delete.{find-cut, delete_entry-Stores}
use net_working_mini_net.Switch.{MacPortMap}
use net_working_mini_net.Switch.Mac.{is_aged, sweep_from, sweep_aged_mac_port_entry}
use net_working_mini_net.Switch.Mac.Aging.{sweep_list-some, sweep_list-none}
use net_working_mini_net.Switch.Mac.Store.{Store, delete_found, sweep_at}

-- The sweep from the list `i` on: the same answer, and memory that stores the table that is left.
abbrev pub Swept : (heads : ℕ → Ptr) (swept : ℕ × Store) (left : ℕ × MacPortMap) → Type 0
Swept heads swept left =
    (swept.0 ≡ left.0) × (nodes : ℕ → List Ptr) × Stores heads swept.1 left.1 nodes

module _ (heads : ℕ → Ptr) (s : Store) (t : MacPortMap) (nodes : ℕ → List Ptr)
    (r : Stores heads s t nodes) (now : ℕ) where
  sweep_from_lem :
      (left i : ℕ)
      → i + left ≤ hash_8bits
      → Swept heads
          (delete_found s (first_in (λ n. is_aged now (s.entry n)) left i nodes))
          (sweep_from now left i t)
  unfolding first_in sweep_from delete_found
  sweep_from_lem zero i b = (refl, nodes, r)
  sweep_from_lem (suc left) i b =
      let here = find-content heads s t nodes r (is_aged now) i (omega arith) in
      elim (Option-cases (find (λ n. is_aged now (s.entry n)) (nodes i))) [
        | inl e ↦
            rw (e, sweep_list-none now (t i) (sym (rw e at here)))
              (sweep_from_lem left (suc i) (omega arith))
        | inr (n, e) ↦
            let (us, vs, cut, rest) = find-cut s.entry (is_aged now) (nodes i) n e in
            rw (e, sweep_list-some now (t i) (s.entry n) (sym (rw e at here)))
              (
                refl,
                set_bucket nodes i (us ++ vs),
                subst
                    (λ l.
                      Stores heads (delete_found s (some n)).1 (set_bucket t i l)
                        (set_bucket nodes i (us ++ vs)))
                    (sym rest ∙ ap (drop_first (is_aged now)) (r.content i (omega arith)))
                    (delete_entry-Stores heads s t nodes r i us n vs (omega arith) cut),
              )
      ]

-- On memory that stores the table, the sweep answers what the sweep of the model answers, and leaves
-- memory that stores the table which the model leaves, if the fuel exceeds the length of every list.
pub sweep_at-Swept :
    (heads : ℕ → Ptr) (fuel : ℕ) (s : Store) (t : MacPortMap) (nodes : ℕ → List Ptr) (now : ℕ)
    → Stores heads s t nodes
    → IsEnough fuel nodes
    → Swept heads (sweep_at heads fuel now s) (sweep_aged_mac_port_entry now t)
unfolding sweep_at sweep_aged_mac_port_entry
sweep_at-Swept heads fuel s t nodes now r f =
    rw
      (first_node_lem heads s t nodes r fuel f (λ n. is_aged now (s.entry n)) hash_8bits 0
        (omega arith))
      (sweep_from_lem heads s t nodes r now hash_8bits 0 (omega arith))
