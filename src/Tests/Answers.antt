-- ===== src/Tests/Answers.antt =====
-- The whole letter count with one worker, on the text "Aba", and the start of the server.
use mathlib.Core.Option
use net_working_mini_net.Base.{
  ℕ, ◌+◌, ◌/◌, ◌<◌, ◌^◌, ◌≡◌, refl, ap, some, none, true, map, take, List, [], ◌∷◌, length, arith,
}
use net_working_mini_net.WordCount.{
  Table, c_string, add_table, task, tasks_from, count_ip, start_file, end_file, end_file_final,
}
use net_working_mini_net.WordCount.Client.{occurrences, NoNul}
use net_working_mini_net.WordCount.Server.{last_bytes}
use net_working_mini_net.WordCount.Threads.{
  System, set_thread, initial, accepting, asked, answered, added, accept, answer, add, Reach, start,
  later,
}
use net_working_mini_net.WordCount.Threads.Printed.{counting}
use net_working_mini_net.WordCount.Messages.Delivery.{client_main-send_task}
use net_working_mini_net.WordCount.Answers.{send_answer, recv_answer}
use net_working_mini_net.WordCount.Start.{Train, Accepting, server_main}
use net_working_mini_net.WordCount.Start.Accepted.{Ends, task_of, system_at, server_main-Reach}
use net_working_mini_net.WordCount.Answers.Whole.{IsAnswered, Reach-occurrences}

abbrev text : List ℕ
text = b'A' ∷ b'b' ∷ b'a' ∷ []

abbrev files : List ℕ → List ℕ
files name = text

-- What arrives from the worker.
abbrev worker : ℕ → Table
worker i = recv_answer [] (send_answer (counting (0 ∷ []) text 1 i))

abbrev after_accept : System
after_accept = record initial { main = accepting 1; threads = set_thread initial.threads 0 asked }

abbrev after_answer : System
after_answer = record after_accept {
  threads = set_thread after_accept.threads 0 (answered (worker 0));
}

abbrev after_add : System
after_add = record after_answer {
  ans = add_table after_answer.ans (worker 0);
  threads = set_thread after_answer.threads 0 added;
}

run : Reach worker 1 after_add
unfolding set_thread
run =
    let one : 0 < 1 = omega arith in
    later (later (later start (accept 0 refl one)) (answer 0 refl)) (add 0 (worker 0) refl)

all_added : (i : ℕ) → i < 1 → after_add.threads i ≡ added
unfolding set_thread
all_added i lt = ground arith

ends : c_string (0 ∷ []) ≡ []
unfolding c_string
ends = refl

nothing_stale : c_string [] ≡ []
unfolding c_string
nothing_stale = refl

text-NoNul : NoNul text
text-NoNul = omega arith

start-lt : (i : ℕ) → i < 1 → (task i 3 1).0 < 2 ^ 64
unfolding start_file
start-lt i b = omega arith

end-lt : (i : ℕ) → i < 1 → (task i 3 1).1 < 2 ^ 64
unfolding end_file_final end_file
end-lt i b = ground arith

conversed : IsAnswered files (0 ∷ []) [] (λ i. []) 1 worker
conversed i b = ap (Option.map (λ t. recv_answer [] (send_answer t))) (
    client_main-send_task files (0 ∷ []) [] (task i 3 1).0 (task i 3 1).1 nothing_stale
      (start-lt i b) (end-lt i b))

Reach-occurrences_example :
    occurrences 0 text ≡ after_add.ans 0 + occurrences 0 (last_bytes (length text / 1) 0 text)
Reach-occurrences_example =
    Reach-occurrences files (0 ∷ []) [] (λ i. []) 0 worker after_add 0 ends nothing_stale text-NoNul
      (omega arith) (omega arith) (omega arith) conversed run all_added

-- Two workers in the file, of which the second is not accepted.
abbrev conf : List ℕ
conf = b'a' ∷ 10 ∷ b'b' ∷ 10 ∷ []

abbrev started : List Train × Accepting
started = server_main (some 3) true (0 ∷ []) conf 100 (some 7 ∷ none ∷ [])

server_main-Reach_example :
    (map task_of started.0
      ≡ take
          (length started.0)
          (tasks_from (count_ip (0 ∷ []) conf) 0 100 (count_ip (0 ∷ []) conf)))
    × Ends (count_ip (0 ∷ []) conf) (length started.0) started.1
    × Reach worker (count_ip (0 ∷ []) conf) (system_at started)
server_main-Reach_example = server_main-Reach worker 3 (0 ∷ []) conf 100 (some 7 ∷ none ∷ [])
