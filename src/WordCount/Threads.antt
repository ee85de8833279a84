-- ===== src/WordCount/Threads.antt =====
-- server.c: `main` and the threads of `handle_client`, interleaved in any order. `worker i` is what
-- `recv` leaves in the table of the thread with index `i`, and `n` the number of workers.
pub mod Sums
pub mod Printed
use net_working_mini_net.Base.{ℕ, suc, ◌-◌, ◌<◌, ◌≡◌, ◌==◌, if◌then◌else◌}
use net_working_mini_net.WordCount.{Table, add_table}

-- Where a thread stands: not created, behind its three calls of `send`, behind `recv`, behind the
-- locked part.
pub data Thread : Type 0 where
  idle : Thread
  asked : Thread
  answered : Table → Thread
  added : Thread

-- Where `main` stands: before the `accept` of a worker, ended by a failure of `accept`, or behind the
-- printing of the table.
pub data Main : Type 0 where
  accepting : (index : ℕ) → Main
  refused : Main
  printed : Table → Main

pub record System : Type 0 where
  pub main : Main
  pub ans : Table
  pub threads : ℕ → Thread

unfoldable pub set_thread : (ℕ → Thread) → ℕ → Thread → ℕ → Thread
set_thread threads i th j = if j == i then th else threads j

abbrev pub initial : System
initial = record { main = accepting 0; ans = λ k. 0; threads = λ i. idle }

-- One step of `main` or of a thread. The locked part is one step; `main` prints once the last thread
-- has ended. Without workers, where it would wait for `cli_thread[-1]`, it never prints.
pub data Step (worker : ℕ → Table) (n : ℕ) (s : System) : System → Type 0 where
  accept :
      (i : ℕ)
      → s.main ≡ accepting i
      → i < n
      → Step worker n s
          (record s { main = accepting (suc i); threads = set_thread s.threads i asked })
  accept_fails :
      (i : ℕ) → s.main ≡ accepting i → i < n → Step worker n s (record s { main = refused })
  answer :
      (i : ℕ)
      → s.threads i ≡ asked
      → Step worker n s (record s { threads = set_thread s.threads i (answered (worker i)) })
  add :
      (i : ℕ) (table : Table)
      → s.threads i ≡ answered table
      → Step worker n s
          (record s { ans = add_table s.ans table; threads = set_thread s.threads i added })
  print :
      s.main ≡ accepting n
      → s.threads (n - 1) ≡ added
      → Step worker n s (record s { main = printed s.ans })

pub data Reach (worker : ℕ → Table) (n : ℕ) : System → Type 0 where
  start : Reach worker n initial
  later : {s t : System} → Reach worker n s → Step worker n s t → Reach worker n t
