-- ===== src/WordCount/Answers/Whole.antt =====
-- The letter count from the split of the file to the sum of the answers.
use mathlib.Core.Option
use net_working_mini_net.Base.{
  ℕ, zero, suc, ◌+◌, ◌-◌, ◌/◌, ◌^◌, ◌≤◌, ◌<◌, ◌≡◌, refl, ap, sym, ◌∙◌, inl, inr, some, List, [],
  drop, length, ◌==◌, Bool-cases, arith,
}
use net_working_mini_net.WordCount.{Table, c_string, start_file, end_file_final, task, add_tables}
use net_working_mini_net.WordCount.Client.{occurrences, NoNul, calculate_lem}
use net_working_mini_net.WordCount.Server.{last_bytes, part_end, end_file_lem, word_count_lem}
use net_working_mini_net.WordCount.Threads.{added, System, Reach}
use net_working_mini_net.WordCount.Threads.Sums.{tables_of, add_tables-tables_of}
use net_working_mini_net.WordCount.Threads.Printed.{counting, Reach-added, tables_of-word_count}
use net_working_mini_net.WordCount.Messages.{filename, send_task, client_main}
use net_working_mini_net.WordCount.Messages.Delivery.{client_main-send_task}
use net_working_mini_net.WordCount.Answers.{send_answer, recv_answer}
use net_working_mini_net.WordCount.Answers.Conversation.{recv_answer-send_answer, part-le}

-- The table of each thread is what arrives from the client that got its task. `stale'` is what stood in
-- the table of the thread before.
abbrev pub IsAnswered :
    (files : List ℕ → List ℕ) (behind stale : List ℕ) (stale' : ℕ → List ℕ)
    → (n : ℕ) (worker : ℕ → Table) → Type 0
IsAnswered files behind stale stale' n worker =
    (i : ℕ)
    → i < n
    → Option.map (λ t. recv_answer (stale' i) (send_answer t))
        (client_main files behind stale
          (send_task (task i (length (files filename)) n).0 (task i (length (files filename)) n).1))
      ≡ some (worker i)

task-le : (len n i : ℕ) → i < suc n → (task i len (suc n)).0 ≤ len
unfolding start_file
task-le len n i b = part_end len (suc n) i (omega arith)

task_end-le :
    (len n i : ℕ) → i < suc n → 1 ≤ len / suc n → len < 2 ^ 31 → (task i len (suc n)).1 ≤ len
unfolding end_file_final
task_end-le len n i b parts short = elim (Bool-cases (i == suc n - 1)) [
  | inl e ↦ rw e (omega arith)
  | inr e ↦
      let inside = part_end len (suc n) (suc i) b in
      rw e (omega (arith, inside, end_file_lem len i (suc n) (omega (arith, inside)) (omega arith)))
]

module _ (files : List ℕ → List ℕ) (behind stale : List ℕ) (stale' : ℕ → List ℕ) (m : ℕ)
    (worker : ℕ → Table) (ends : c_string behind ≡ []) (ends' : c_string (drop 16 stale) ≡ [])
    (nonul : NoNul (files filename)) (short : length (files filename) < 2 ^ 31)
    (parts : 1 ≤ length (files filename) / suc m)
    (answered : IsAnswered files behind stale stale' (suc m) worker) (k : ℕ) (letter : k < 26) where
  -- Each thread holds the counts that the client made.
  answer_lem : (i : ℕ) → i < suc m → worker i k ≡ counting behind (files filename) (suc m) i k
  answer_lem i b =
      let file = files filename in
      let start = (task i (length file) (suc m)).0 in
      let end = (task i (length file) (suc m)).1 in
      let table = counting behind file (suc m) i in
      let starts : start ≤ length file = task-le (length file) m i b in
      let stops : end ≤ length file = task_end-le (length file) m i b parts short in
      let sent =
        client_main-send_task files behind stale start end ends' (omega (arith, starts))
          (omega (arith, stops)) in
      let held : recv_answer (stale' i) (send_answer table) ≡ worker i =
        Option.some_inj.0 (
          ap (Option.map (λ t. recv_answer (stale' i) (send_answer t))) (sym sent)
          ∙ answered i b) in
      let small : table k < 2 ^ 32 = omega (
        arith,
        calculate_lem behind (λ j. 0) start end file k ends (omega (arith, starts, short))
            (omega (arith, stops, short)) letter nonul,
        part-le k start (end - start) file,
      ) in
      ap (λ (t : Table). t k) (sym held) ∙ recv_answer-send_answer (stale' i) table k letter small

  tables_of-answers :
      (left i : ℕ)
      → i + left ≤ suc m
      → add_tables (λ j. 0) (tables_of worker left i) k
        ≡ add_tables (λ j. 0) (tables_of (counting behind (files filename) (suc m)) left i) k
  tables_of-answers zero i b = refl
  tables_of-answers (suc left) i b = omega (
    arith,
    add_tables-tables_of worker k left i,
    add_tables-tables_of (counting behind (files filename) (suc m)) k left i,
    answer_lem i (omega arith),
    tables_of-answers left (suc i) (omega arith),
  )

-- The whole count: server.c splits the file, and each thread gets the answer of a client that counts the
-- part it was sent, each call of `send` arriving as a segment of its own. The file has no NUL bytes, at
-- least as many bytes as there are workers and fewer than 2 ^ 31, and the memory of the client's two
-- buffers starts with a NUL behind what is stored there. Then, in whatever order the threads run, when all
-- have added their tables, the sum of each letter falls short of the file's count by the last bytes of
-- all parts but the final one.
pub Reach-occurrences :
    (files : List ℕ → List ℕ) (behind stale : List ℕ) (stale' : ℕ → List ℕ) (m : ℕ)
    (worker : ℕ → Table) (s : System) (k : ℕ)
    → c_string behind ≡ []
    → c_string (drop 16 stale) ≡ []
    → NoNul (files filename)
    → length (files filename) < 2 ^ 31
    → 1 ≤ length (files filename) / suc m
    → k < 26
    → IsAnswered files behind stale stale' (suc m) worker
    → Reach worker (suc m) s
    → ((i : ℕ) → i < suc m → s.threads i ≡ added)
    → occurrences k (files filename)
      ≡ s.ans k + occurrences k (last_bytes (length (files filename) / suc m) m (files filename))
Reach-occurrences files behind stale stale' m worker s k ends ends' nonul short parts letter
      answered r all =
    let file = files filename in
    omega (
      arith,
      word_count_lem behind file m k ends letter nonul short parts,
      Reach-added worker (suc m) s k r all,
      tables_of-answers files behind stale stale' m worker ends ends' nonul short parts answered k
          letter (suc m) 0 (omega arith),
      tables_of-word_count behind file (suc m) k,
    )
