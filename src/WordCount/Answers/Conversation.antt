-- ===== src/WordCount/Answers/Conversation.antt =====
-- What the server adds after a whole conversation.
use mathlib.Core.List.{append-nil}
use net_working_mini_net.Base.{
  ℕ, zero, suc, ◌+◌, ◌-◌, ◌*◌, ◌^◌, ◌≤◌, ◌<◌, ◌≡◌, refl, ap, sym, ◌∙◌, some, List, [], ◌∷◌, ◌++◌,
  take, drop, length, leb, true, arith,
}
use net_working_mini_net.WordCount.{Table, c_string, calculate, add_table}
use net_working_mini_net.WordCount.Client.{occurrences, occurrences-split, NoNul, calculate_lem}
use net_working_mini_net.WordCount.Messages.{filename, bytes_of, value_of, recv, overwrite}
use net_working_mini_net.WordCount.Messages.Delivery.{value_of-bytes_of, client_main-send_task}
use net_working_mini_net.WordCount.Answers.{
  answer_bytes, send_answer, int_at, stored, recv_answer, handle_client,
}

answer_at :
    (left i k : ℕ) (table : Table) (rest : List ℕ)
    → k < left
    → take 4 (drop (4 * k) (answer_bytes left i table ++ rest)) ≡ bytes_of 4 (table (i + k))
unfolding answer_bytes bytes_of
answer_at zero i k table rest b = absurd (omega arith)
answer_at (suc left) i zero table rest b = let here : i + 0 ≡ i = omega arith in rw here refl
answer_at (suc left) i (suc k) table rest b =
    let four : 4 * suc k ≡ suc (suc (suc (suc (4 * k)))) = omega arith in
    let next : i + suc k ≡ suc i + k = omega arith in
    rw (four, next) (answer_at left (suc i) k table rest (omega arith))

occurrences-le : (k : ℕ) (s : List ℕ) → occurrences k s ≤ length s
occurrences-le k [] = omega arith
occurrences-le k (c ∷ s) = ground (arith, occurrences-le k s)

zero_plus : (k : ℕ) → 0 + k ≡ k
zero_plus k = omega arith

value_of-four : (v : ℕ) → v < 2 ^ 32 → value_of (bytes_of 4 v) ≡ v
value_of-four v b =
    ap value_of (sym (append-nil (bytes_of 4 v)))
    ∙ value_of-bytes_of 4 v [] (unfold value_of in refl) (omega arith)

length-answer_bytes : (left i : ℕ) (table : Table) → length (answer_bytes left i table) ≡ 4 * left
unfolding answer_bytes bytes_of
length-answer_bytes zero i table = refl
length-answer_bytes (suc left) i table = omega (arith, length-answer_bytes left (suc i) table)

recv_answer-whole :
    (stale bytes : List ℕ) (k : ℕ)
    → length bytes ≡ 104
    → recv_answer stale (bytes ∷ []) k
      ≡ value_of (take 4 (drop (4 * k) (bytes ++ drop (length bytes) stale)))
unfolding recv_answer recv stored overwrite int_at
recv_answer-whole stale bytes k size =
    let fits : leb (length bytes) 104 ≡ true = rw size refl in rw fits refl

-- A table of 32-bit numbers arrives as it was sent.
pub recv_answer-send_answer :
    (stale : List ℕ) (table : Table) (k : ℕ)
    → k < 26
    → table k < 2 ^ 32
    → recv_answer stale (send_answer table) k ≡ table k
unfolding send_answer
recv_answer-send_answer stale table k b small =
    recv_answer-whole stale (answer_bytes 26 0 table) k (length-answer_bytes 26 0 table)
    ∙ ap value_of (answer_at 26 0 k table (drop (length (answer_bytes 26 0 table)) stale) b)
    ∙ ap (λ i. value_of (bytes_of 4 (table i))) (zero_plus k)
    ∙ value_of-four (table k) small

-- The letters of a part are among those of the file.
pub part-le :
    (k start n : ℕ) (file : List ℕ) → occurrences k (take n (drop start file)) ≤ length file
part-le k start n file = omega (
  arith,
  occurrences-le k file,
  occurrences-split k start file,
  occurrences-split k n (drop start file),
)

-- If each call of `send` arrives as a segment of its own, the memory of the client's two buffers starts with
-- a NUL behind what is stored there, start and end are below 2 ^ 31 and not negative, and the file has no NUL bytes and fewer
-- than 2 ^ 31 of them, then `handle_client` of server.c adds to the sum of each letter how often the letter
-- stands in the part of the file that it has sent, the last byte left out, whatever stood in its table
-- before; no `int` of the worker's table overflows.
pub handle_client_lem :
    (files : List ℕ → List ℕ) (behind stale stale' : List ℕ) (ans : Table) (start end : ℕ)
    → c_string behind ≡ []
    → c_string (drop 16 stale) ≡ []
    → start < 2 ^ 31
    → end < 2 ^ 31
    → NoNul (files filename)
    → length (files filename) < 2 ^ 31
    → (t : Table) × (handle_client files behind stale stale' ans start end ≡ some t)
      × ((k : ℕ)
          → k < 26
          → (t k ≡ ans k + occurrences k (take (end - start) (drop start (files filename))))
            × (calculate behind (λ j. 0) start end (files filename) k < 2 ^ 31))
unfolding handle_client add_table
handle_client_lem files behind stale stale' ans start end ends ends' s e nonul short =
    let file = files filename in
    let table = calculate behind (λ j. 0) start end file in
    (
      add_table ans (recv_answer stale' (send_answer table)),
      rw (client_main-send_task files behind stale start end ends' (omega arith) (omega arith))
          refl,
      λ k b.
          let counted = calculate_lem behind (λ j. 0) start end file k ends s e b nonul in
          let le = part-le k start (end - start) file in
          let arrived = recv_answer-send_answer stale' table k b (omega (arith, counted, le)) in
          (omega (arith, counted, arrived), omega (arith, counted, le)),
    )
