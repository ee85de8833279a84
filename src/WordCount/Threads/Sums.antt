-- ===== src/WordCount/Threads/Sums.antt =====
-- The tables that the threads have added, summed up by index.
use net_working_mini_net.Base.{ℕ, zero, suc, ◌+◌, ◌≤◌, ◌<◌, ◌≡◌, refl, List, [], ◌∷◌, arith}
use net_working_mini_net.WordCount.{Table, add_table, add_tables}
use net_working_mini_net.WordCount.Server.{add_tables_shift}
use net_working_mini_net.WordCount.Threads.{Thread, idle, asked, answered, added, set_thread}

-- The workers' tables from an index on.
abbrev pub tables_of : (ℕ → Table) → (left i : ℕ) → List Table
tables_of worker zero i = []
tables_of worker (suc left) i = worker i ∷ tables_of worker left (suc i)

module _ (worker : ℕ → Table) (k : ℕ) where
  -- What a thread has added to the count of the letter `k`.
  abbrev pub share : ℕ → Thread → ℕ
  share i idle = 0
  share i asked = 0
  share i (answered t) = 0
  share i added = worker i k

  pub total : (left i : ℕ) → (ℕ → Thread) → ℕ
  total zero i threads = 0
  total (suc left) i threads = share i (threads i) + total left (suc i) threads

  total-set_thread_ne :
      (left i j : ℕ) (threads : ℕ → Thread) (th : Thread)
      → j < i
      → total left i (set_thread threads j th) ≡ total left i threads
  unfolding total set_thread
  total-set_thread_ne zero i j threads th h = refl
  total-set_thread_ne (suc left) i j threads th h =
      ground (arith, total-set_thread_ne left (suc i) j threads th)

  pub total-set_thread :
      (left i j : ℕ) (threads : ℕ → Thread) (th : Thread)
      → i ≤ j
      → j < i + left
      → total left i (set_thread threads j th) + share j (threads j)
        ≡ total left i threads + share j th
  unfolding total set_thread
  total-set_thread zero i j threads th h l = absurd (omega arith)
  total-set_thread (suc left) i j threads th h l = ground (
    arith,
    total-set_thread_ne left (suc i) j threads th,
    total-set_thread left (suc i) j threads th,
  )

  pub total-idle : (left i : ℕ) → total left i (λ j. idle) ≡ 0
  unfolding total
  total-idle zero i = refl
  total-idle (suc left) i = omega (arith, total-idle left (suc i))

  pub add_tables-tables_of :
      (left i : ℕ)
      → add_tables (λ j. 0) (tables_of worker (suc left) i) k
        ≡ worker i k + add_tables (λ j. 0) (tables_of worker left (suc i)) k
  unfolding add_tables add_table
  add_tables-tables_of left i =
      omega
        (arith, add_tables_shift k (add_table (λ j. 0) (worker i)) (tables_of worker left (suc i)))

  share-le : (i : ℕ) (th : Thread) → share i th ≤ worker i k
  share-le i idle = omega arith
  share-le i asked = omega arith
  share-le i (answered t) = omega arith
  share-le i added = omega arith

  -- The threads have added no more than all tables, and all of them once every thread has.
  pub total-le :
      (left i : ℕ) (threads : ℕ → Thread)
      → total left i threads ≤ add_tables (λ j. 0) (tables_of worker left i) k
  unfolding total
  total-le zero i threads = omega arith
  total-le (suc left) i threads =
      omega
        (arith, share-le i (threads i), total-le left (suc i) threads, add_tables-tables_of left i)

  pub total-added :
      (left i : ℕ) (threads : ℕ → Thread)
      → ((j : ℕ) → j < i + left → threads j ≡ added)
      → total left i threads ≡ add_tables (λ j. 0) (tables_of worker left i) k
  unfolding total
  total-added zero i threads h = unfold add_tables in refl
  total-added (suc left) i threads h =
      let here : threads i ≡ added = h i (omega arith) in
      rw here (
        omega (
          arith,
          total-added left (suc i) threads (λ j l. h j (omega arith)),
          add_tables-tables_of left i,
        ))
