-- ===== src/ThreadExample.antt =====
-- nat_stack/example/pthread_example.c, of which the other two copies are the same text: two threads that
-- print under a lock. A `sleep` ends at any time, and the durations that `rand` gives are a parameter.
pub mod Output
pub mod Progress
use net_working_mini_net.Base.{ℕ, ◌%◌, ◌≡◌, Bool, true, false, List, [], ◌∷◌, ◌++◌}

-- `t1` and `t2`
pub data Name : Type 0 where
  t1 : Name
  t2 : Name

-- Where a thread stands: not created, in `sleep`, before the lock, in the lock and before its line,
-- behind its line, and behind the unlock.
pub data Thread : Type 0 where
  idle : Thread
  asleep : Thread
  awake : Thread
  locked : Thread
  printed : Thread
  ended : Thread

-- Where `main` stands: before each of its two calls of `pthread_create` and of `pthread_join`, and at
-- its end.
pub data Main : Type 0 where
  creating : Name → Main
  joining : Name → Main
  returned : Main

-- `struct thread_arg`
pub record ThreadArg : Type 0 where
  pub index : ℕ
  pub duration : ℕ

-- The output is the arguments of the lines, in order.
pub record System : Type 0 where
  pub main : Main
  pub threads : Name → Thread
  pub output_lock : Bool
  pub output : List ThreadArg

unfoldable pub set_thread : (Name → Thread) → Name → Thread → Name → Thread
set_thread threads t1 th t1 = th
set_thread threads t1 th t2 = threads t2
set_thread threads t2 th t1 = threads t1
set_thread threads t2 th t2 = th

abbrev pub initial : System
initial = record { main = creating t1; threads = λ t. idle; output_lock = false; output = [] }

-- `main` after the creation of a thread, and after a join.
abbrev pub after_create : Name → Main
after_create t1 = creating t2
after_create t2 = joining t1

abbrev pub after_join : Name → Main
after_join t1 = joining t2
after_join t2 = returned

module _ (rand : Name → ℕ) where
  unfoldable pub arg : Name → ThreadArg
  arg t1 = record { index = 1; duration = rand t1 % 5 }
  arg t2 = record { index = 2; duration = rand t2 % 5 }

  -- One step of `main` or of a thread.
  pub data Step (s : System) : System → Type 0 where
    create :
        (t : Name)
        → s.main ≡ creating t
        → Step s (record s { main = after_create t; threads = set_thread s.threads t asleep })
    wake :
        (t : Name)
        → s.threads t ≡ asleep
        → Step s (record s { threads = set_thread s.threads t awake })
    lock :
        (t : Name)
        → s.threads t ≡ awake
        → s.output_lock ≡ false
        → Step s (record s { threads = set_thread s.threads t locked; output_lock = true })
    print :
        (t : Name)
        → s.threads t ≡ locked
        → Step s
            (record s { threads = set_thread s.threads t printed; output = s.output ++ arg t ∷ [] })
    unlock :
        (t : Name)
        → s.threads t ≡ printed
        → Step s (record s { threads = set_thread s.threads t ended; output_lock = false })
    join :
        (t : Name)
        → s.main ≡ joining t
        → s.threads t ≡ ended
        → Step s (record s { main = after_join t })

  pub data Reach : System → Type 0 where
    start : Reach initial
    later : {s t : System} → Reach s → Step s t → Reach t
