-- ===== src/WordCount/Order.antt =====
-- server.c: the threads add their tables under a lock, in whatever order they take it.
use mathlib.Core.Logic.{∥∥₁_elim}
use mathlib.Core.List.{Perm, Permᴰ}
use native.Mathlib.Nat.{ℕ_set}
use net_working_mini_net.Base.{ℕ, ◌+◌, ◌≡◌, refl, ap, ◌∙◌, List, ◌∷◌, arith}
use net_working_mini_net.WordCount.{Table, add_table, add_tables}
use net_working_mini_net.WordCount.Server.{add_tables_shift}

module _ (k : ℕ) where
  add_tables-cons :
      (ans : Table) (t : Table) (tables : List Table)
      → add_tables ans (t ∷ tables) k ≡ t k + add_tables ans tables k
  unfolding add_tables add_table
  add_tables-cons ans t tables =
      omega (arith, add_tables_shift k (add_table ans t) tables, add_tables_shift k ans tables)

  add_tables-Permᴰ :
      (ans : Table) {a b : List Table} → Permᴰ a b → add_tables ans a k ≡ add_tables ans b k
  add_tables-Permᴰ ans Permᴰ.nil = refl
  add_tables-Permᴰ ans (Permᴰ.cons {a} {b} {l₁} {l₂} e d) = omega (
    arith,
    add_tables-cons ans a l₁,
    add_tables-cons ans b l₂,
    ap (λ (t : Table). t k) e,
    add_tables-Permᴰ ans d,
  )
  add_tables-Permᴰ ans (Permᴰ.swap {a} {b} {a'} {b'} {l} e e') = omega (
    arith,
    add_tables-cons ans a (b ∷ l),
    add_tables-cons ans b l,
    add_tables-cons ans a' (b' ∷ l),
    add_tables-cons ans b' l,
    ap (λ (t : Table). t k) e,
    ap (λ (t : Table). t k) e',
  )
  add_tables-Permᴰ ans (Permᴰ.trans d d') = add_tables-Permᴰ ans d ∙ add_tables-Permᴰ ans d'

-- The final count of each letter does not depend on the order in which the threads add their tables.
pub add_tables-Perm :
    (ans : Table) (a b : List Table) (k : ℕ) → Perm a b → add_tables ans a k ≡ add_tables ans b k
add_tables-Perm ans a b k p = ∥∥₁_elim p (ℕ_set _ _) (λ d. add_tables-Permᴰ k ans d)
