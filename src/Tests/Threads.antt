-- ===== src/Tests/Threads.antt =====
-- The theorems on the threads of the letter count and on its messages, at one worker and a short text.
use net_working_mini_net.Base.{
  ℕ, ◌+◌, ◌-◌, ◌^◌, take, drop, ◌<◌, ◌≤◌, ◌≡◌, refl, some, List, [], ◌∷◌, arith,
}
use net_working_mini_net.WordCount.{Table, c_string, add_table, add_tables, calculate, word_count}
use net_working_mini_net.WordCount.Threads.{
  asked, answered, added, accepting, printed, System, set_thread, initial, accept, answer, add,
  print, Reach, start, later,
}
use net_working_mini_net.WordCount.Threads.Sums.{tables_of}
use net_working_mini_net.WordCount.Threads.Printed.{
  counting, Reach-printed-le, Reach-word_count, Reach-printed_early,
}
use net_working_mini_net.WordCount.Client.{occurrences, NoNul}
use net_working_mini_net.WordCount.Answers.{handle_client}
use net_working_mini_net.WordCount.Answers.Conversation.{handle_client_lem}

abbrev text : List ℕ
text = b'A' ∷ b'b' ∷ b'a' ∷ []

abbrev worker : ℕ → Table
worker = counting (0 ∷ []) text 1

abbrev has_asked : System
has_asked = record initial { main = accepting 1; threads = set_thread initial.threads 0 asked }

abbrev has_answered : System
has_answered = record has_asked { threads = set_thread has_asked.threads 0 (answered (worker 0)) }

abbrev has_added : System
has_added = record has_answered {
  ans = add_table has_answered.ans (worker 0);
  threads = set_thread has_answered.threads 0 added;
}

abbrev has_printed : System
has_printed = record has_added { main = printed (has_added.ans) }

run : Reach worker 1 has_added
unfolding set_thread
run =
    let one : 0 < 1 = omega arith in
    later (later (later start (accept 0 refl one)) (answer 0 refl)) (add 0 (worker 0) refl)

printing : Reach worker 1 has_printed
unfolding set_thread
printing = later run (print refl refl)

all_added : (i : ℕ) → i < 1 → has_added.threads i ≡ added
unfolding set_thread
all_added i lt = ground arith

Reach-printed-le_example : has_added.ans 0 ≤ add_tables (λ j. 0) (tables_of worker 1 0) 0
Reach-printed-le_example = Reach-printed-le worker 1 has_printed (has_added.ans) 0 printing refl

Reach-word_count_example : has_added.ans 0 ≡ word_count (0 ∷ []) text 1 0
Reach-word_count_example = Reach-word_count (0 ∷ []) text 1 has_added 0 run all_added

Reach-printed_early_example :
    (s : System) × (t : Table) × Reach worker 3 s
    × (s.main ≡ printed t)
    × ((k : ℕ) → t k ≡ worker 2 k)
Reach-printed_early_example = Reach-printed_early worker 2

nothing_stale : c_string [] ≡ []
unfolding c_string
nothing_stale = refl

text-NoNul : NoNul text
text-NoNul = omega arith

ends : c_string (0 ∷ []) ≡ []
unfolding c_string
ends = refl

handle_client_lem_example :
    (t : Table) × (handle_client (λ name. text) (0 ∷ []) [] [] (λ j. 5) 1 3 ≡ some t)
    × ((k : ℕ)
        → k < 26
        → (t k ≡ 5 + occurrences k (take (3 - 1) (drop 1 text)))
          × (calculate (0 ∷ []) (λ j. 0) 1 3 text k < 2 ^ 31))
handle_client_lem_example =
    handle_client_lem (λ name. text) (0 ∷ []) [] [] (λ j. 5) 1 3 ends nothing_stale (omega arith)
      (omega arith) text-NoNul (omega arith)
