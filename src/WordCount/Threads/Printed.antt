-- ===== src/WordCount/Threads/Printed.antt =====
-- What `main` of server.c prints, in every interleaving of the threads.
use net_working_mini_net.Base.{
  ℕ, zero, suc, ◌+◌, ◌-◌, ◌≤◌, ◌<◌, ◌≡◌, ◌≢◌, refl, sym, ap, ◌∙◌, List, ◌∷◌, arith, ==_refl, ◌==◌,
  length, map, Bool-cases, inl, inr, ◌⊎◌,
}
use net_working_mini_net.WordCount.{
  Table, add_table, add_tables, task, tasks_from, calculate, word_count,
}
use net_working_mini_net.WordCount.Threads.{
  Thread, idle, asked, answered, added, Main, accepting, refused, printed, System, set_thread, Step,
  accept, accept_fails, answer, add, print, Reach, start, later,
}
use net_working_mini_net.WordCount.Threads.Sums.{
  tables_of, share, total, total-set_thread, total-idle, total-le, total-added,
}

-- The table of a thread that has received it.
abbrev Holds : (worker : ℕ → Table) → ℕ → Thread → ℕ → Type 0
Holds worker i idle k = Unit {0}
Holds worker i asked k = Unit {0}
Holds worker i (answered t) k = t k ≡ worker i k
Holds worker i added k = Unit {0}

abbrev Printed : ℕ → Main → ℕ → Type 0
Printed sum (accepting i) k = i ≤ i
Printed sum refused k = 0 ≤ sum
Printed sum (printed t) k = t k ≤ sum

-- The threads that `main` has created.
abbrev created : ℕ → Main → ℕ
created n (accepting i) = i
created n refused = n
created n (printed t) = n

-- The count of the letter `k` is the sum of what the threads have added, the threads that are not
-- created have not moved, and no more is printed than was added.
record Inv (worker : ℕ → Table) (n k : ℕ) (s : System) : Type 0 where
  sum : s.ans k ≡ total worker k n 0 s.threads
  bound : created n s.main ≤ n
  beyond : (i : ℕ) → created n s.main ≤ i → s.threads i ≡ idle
  holds : (i : ℕ) → Holds worker i (s.threads i) k
  shown : Printed (s.ans k) s.main k

lt_or_le : (i n : ℕ) → (i < n) ⊎ (n ≤ i)
lt_or_le i n = omega arith

module _ (worker : ℕ → Table) (n k : ℕ) where
  within : (s : System) (i : ℕ) → Inv worker n k s → s.threads i ≢ idle → i < created n s.main
  within s i inv ne = elim (lt_or_le i (created n s.main)) [
    | inl lt ↦ lt
    | inr le ↦ absurd (ne (inv.beyond i le))
  ]

  -- A thread moves, `main` moves, and `ans` grows by what the thread has added.
  set_thread-Inv :
      (s : System) (i : ℕ) (th : Thread) (m : Main) (ans : Table)
      → Inv worker n k s
      → created n s.main ≤ created n m
      → created n m ≤ n
      → i < created n m
      → ans k + share worker k i (s.threads i) ≡ s.ans k + share worker k i th
      → Holds worker i th k
      → Printed (ans k) m k
      → Inv worker n k (record { main = m; ans = ans; threads = set_thread s.threads i th })
  set_thread-Inv s i th m ans inv more bound lt adds holds shown = record {
    sum =
        omega (
          arith,
          inv.sum,
          total-set_thread worker k n 0 i s.threads th (omega arith) (omega arith),
        );
    bound = bound;
    beyond = λ j le. unfold set_thread in ground (arith, inv.beyond j);
    holds = λ j. elim (Bool-cases (j == i)) [
      | inl e ↦ let eq : j ≡ i = ground arith in unfold set_thread in rw e (rw eq holds)
      | inr e ↦ unfold set_thread in rw e (inv.holds j)
    ];
    shown = shown;
  }

  Printed-le : (a b : ℕ) (m : Main) → a ≤ b → Printed a m k → Printed b m k
  Printed-le a b (accepting i) h p = omega arith
  Printed-le a b refused h p = omega arith
  Printed-le a b (printed t) h p = omega arith

  Step-Inv : {s t : System} → Step worker n s t → Inv worker n k s → Inv worker n k t
  Step-Inv {s} (accept i e lt) inv =
      let here : created n s.main ≡ i = ap (created n) e in
      let fresh : share worker k i (s.threads i) ≡ 0 =
        ap (share worker k i) (inv.beyond i (omega arith)) in
      set_thread-Inv s i asked (accepting (suc i)) s.ans inv (omega arith) (omega arith)
        (omega arith) (omega arith) tt (omega arith)
  Step-Inv {s} (accept_fails i e lt) inv =
      let here : created n s.main ≡ i = ap (created n) e in
      record {
        sum = inv.sum;
        bound = omega arith;
        beyond = λ j le. inv.beyond j (omega arith);
        holds = inv.holds;
        shown = omega arith;
      }
  Step-Inv {s} (answer i e) inv =
      let nothing : share worker k i (s.threads i) ≡ 0 = ap (share worker k i) e in
      set_thread-Inv s i (answered (worker i)) s.main s.ans inv (omega arith) inv.bound
        (within s i inv (λ h. ground arith)) (omega arith) refl inv.shown
  Step-Inv {s} (add i table e) inv =
      let nothing : share worker k i (s.threads i) ≡ 0 = ap (share worker k i) e in
      let same : table k ≡ worker i k = rw e at (inv.holds i) in
      set_thread-Inv s i added s.main (add_table s.ans table) inv (omega arith) inv.bound
        (within s i inv (λ h. ground arith)) (unfold add_table in omega arith) tt
        (Printed-le (s.ans k) (add_table s.ans table k) s.main (unfold add_table in omega arith)
          inv.shown)
  Step-Inv {s} (print e d) inv =
      let here : created n s.main ≡ n = ap (created n) e in
      record {
        sum = inv.sum;
        bound = omega arith;
        beyond = λ j le. inv.beyond j (omega arith);
        holds = inv.holds;
        shown = omega arith;
      }

  Reach-Inv : {s : System} → Reach worker n s → Inv worker n k s
  Reach-Inv start = record {
    sum = sym (total-idle worker k n 0);
    bound = omega arith;
    beyond = λ i le. refl;
    holds = λ i. tt;
    shown = omega arith;
  }
  Reach-Inv (later r st) = Step-Inv st (Reach-Inv r)

-- In every interleaving of the server's threads, each printed count is at most the sum of the counts
-- that the workers have sent.
pub Reach-printed-le :
    (worker : ℕ → Table) (n : ℕ) (s : System) (t : Table) (k : ℕ)
    → Reach worker n s
    → s.main ≡ printed t
    → t k ≤ add_tables (λ j. 0) (tables_of worker n 0) k
Reach-printed-le worker n s t k r e =
    let inv = Reach-Inv worker n k r in
    let shown : t k ≤ s.ans k = rw e at inv.shown in
    omega (arith, inv.sum, total-le worker k n 0 s.threads)

-- The table that the worker with an index sends: `calculate` at its task.
abbrev pub counting : (behind file : List ℕ) → (n : ℕ) → ℕ → Table
counting behind file n i =
    calculate behind (λ j. 0) (task i (length file) n).0 (task i (length file) n).1 file

tables_of-counting :
    (behind file : List ℕ) (n left i : ℕ)
    → tables_of (counting behind file n) left i
      ≡ map
          (λ (task : ℕ × ℕ). calculate behind (λ j. 0) task.0 task.1 file)
          (tasks_from left i (length file) n)
unfolding tasks_from
tables_of-counting behind file n zero i = refl
tables_of-counting behind file n (suc left) i =
    ap (λ l. counting behind file n i ∷ l) (tables_of-counting behind file n left (suc i))

-- When all threads have added their table, `ans` is the sum of the tables.
pub Reach-added :
    (worker : ℕ → Table) (n : ℕ) (s : System) (k : ℕ)
    → Reach worker n s
    → ((i : ℕ) → i < n → s.threads i ≡ added)
    → s.ans k ≡ add_tables (λ j. 0) (tables_of worker n 0) k
Reach-added worker n s k r all =
    let inv = Reach-Inv worker n k r in
    inv.sum ∙ total-added worker k n 0 s.threads (λ j lt. all j (omega arith))

-- The sum of the tables of workers that count their parts.
pub tables_of-word_count :
    (behind file : List ℕ) (n k : ℕ)
    → add_tables (λ j. 0) (tables_of (counting behind file n) n 0) k ≡ word_count behind file n k
unfolding word_count
tables_of-word_count behind file n k =
    ap (λ (l : List Table). add_tables (λ j. 0) l k) (tables_of-counting behind file n n 0)

-- If every worker counts its part, then in every interleaving in which all threads have added their
-- table, `ans` holds what `word_count` gives.
pub Reach-word_count :
    (behind file : List ℕ) (n : ℕ) (s : System) (k : ℕ)
    → Reach (counting behind file n) n s
    → ((i : ℕ) → i < n → s.threads i ≡ added)
    → s.ans k ≡ word_count behind file n k
Reach-word_count behind file n s k r all =
    Reach-added (counting behind file n) n s k r all ∙ tables_of-word_count behind file n k

-- The threads after `m` calls of `accept`, none of which has heard from its worker.
pub asked_all : ℕ → ℕ → Thread
asked_all zero = λ i. idle
asked_all (suc m) = set_thread (asked_all m) m asked

pub Reach-asked_all :
    (worker : ℕ → Table) (n m : ℕ)
    → m ≤ n
    → Reach worker n (record { main = accepting m; ans = λ k. 0; threads = asked_all m })
unfolding asked_all
Reach-asked_all worker n zero h = start
Reach-asked_all worker n (suc m) h =
    later (Reach-asked_all worker n m (omega arith)) (accept m refl (omega arith))

-- However many workers there are, `main` may print the counts of the last one alone: it waits for no
-- other thread.
pub Reach-printed_early :
    (worker : ℕ → Table) (m : ℕ)
    → (s : System) × (t : Table) × Reach worker (suc m) s
      × (s.main ≡ printed t)
      × ((k : ℕ) → t k ≡ worker m k)
unfolding asked_all set_thread add_table
Reach-printed_early worker m =
    let r₀ = Reach-asked_all worker (suc m) (suc m) (omega arith) in
    let r₁ = later r₀ (answer m (rw ==_refl refl)) in
    let r₂ = later r₁ (add m (worker m) (rw ==_refl refl)) in
    let last : suc m - 1 ≡ m = omega arith in
    let r₃ = later r₂ (print refl (rw (last, ==_refl) refl)) in (_, _, r₃, refl, λ k. omega arith)
