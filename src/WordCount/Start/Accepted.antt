-- ===== src/WordCount/Start/Accepted.antt =====
-- The loop over the workers in `main` of server.c, and the steps of the threads.
use net_working_mini_net.Base.{
  ℕ, zero, suc, ◌<◌, ◌≡◌, refl, ap, true, Option, none, some, List, [], ◌∷◌, map, take, length,
  arith,
}
use net_working_mini_net.WordCount.{Table, task, tasks_from, count_ip}
use net_working_mini_net.WordCount.Threads.{
  Main, accepting, refused, System, accept_fails, Reach, later,
}
use net_working_mini_net.WordCount.Threads.Printed.{asked_all, Reach-asked_all}
use net_working_mini_net.WordCount.Start.{
  Train, Accepting, returned, waiting, all_created, accept_workers, server_main,
}

-- How the loop ends behind `m` of `left` workers.
abbrev pub Ends : (left m : ℕ) → Accepting → Type 0
Ends left m (returned code) = (m < left) × (code ≡ 1)
Ends left m waiting = m < left
Ends left m all_created = m ≡ left

abbrev pub task_of : Train → ℕ × ℕ
task_of t = (t.start, t.end)

record Accepts (left index len n : ℕ) (r : List Train × Accepting) : Type 0 where
  tasks : map task_of r.0 ≡ take (length r.0) (tasks_from left index len n)
  ends : Ends left (length r.0) r.1

more : (left m : ℕ) (a : Accepting) → Ends left m a → Ends (suc left) (suc m) a
more left m (returned code) e = (omega arith, e.1)
more left m waiting e = omega arith
more left m all_created e = omega arith

accept_workers-Accepts :
    (left index len n : ℕ) (accepts : List (Option ℕ))
    → Accepts left index len n (accept_workers left index len n accepts)
unfolding accept_workers tasks_from
accept_workers-Accepts zero index len n accepts = record { tasks = refl; ends = refl }
accept_workers-Accepts (suc left) index len n [] = record { tasks = refl; ends = omega arith }
accept_workers-Accepts (suc left) index len n (none ∷ accepts) = record {
  tasks = refl;
  ends = (omega arith, refl);
}
accept_workers-Accepts (suc left) index len n (some newfd ∷ accepts) =
    let r = accept_workers-Accepts left (suc index) len n accepts in
    record { tasks = ap (λ l. task index len n ∷ l) r.tasks; ends = more left _ _ r.ends }

-- Where `main` stands in the step relation behind `m` workers.
abbrev pub main_at : (m : ℕ) → Accepting → Main
main_at m (returned code) = refused
main_at m waiting = accepting m
main_at m all_created = accepting m

abbrev pub system_at : List Train × Accepting → System
system_at r = record {
  main = main_at (length r.0) r.1;
  ans = λ k. 0;
  threads = asked_all (length r.0);
}

Ends-Reach :
    (worker : ℕ → Table) (n m : ℕ) (a : Accepting)
    → Ends n m a
    → Reach worker n (record { main = main_at m a; ans = λ k. 0; threads = asked_all m })
Ends-Reach worker n m (returned code) e =
    later (Reach-asked_all worker n m (omega arith)) (accept_fails m refl e.0)
Ends-Reach worker n m waiting e = Reach-asked_all worker n m (omega arith)
Ends-Reach worker n m all_created e = Reach-asked_all worker n m (omega arith)

-- Whatever `accept` answers, once the socket is bound `main` of server.c hands out the first of the tasks,
-- in order, one for each worker that it accepts, and what it has done is a run of the step relation of
-- the threads, which ends at a failure of `accept`, before a worker that does not come, or with a thread
-- for each worker.
pub server_main-Reach :
    (worker : ℕ → Table) (sfd : ℕ) (behind conf : List ℕ) (len : ℕ) (accepts : List (Option ℕ))
    → let n = count_ip behind conf in
      let r = server_main (some sfd) true behind conf len accepts in
      (map task_of r.0 ≡ take (length r.0) (tasks_from n 0 len n))
      × Ends n (length r.0) r.1
      × Reach worker n (system_at r)
unfolding server_main
server_main-Reach worker sfd behind conf len accepts =
    let n = count_ip behind conf in
    let r = accept_workers-Accepts n 0 len n accepts in
    (r.tasks, r.ends, Ends-Reach worker n _ _ r.ends)
