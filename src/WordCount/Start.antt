-- ===== src/WordCount/Start.antt =====
-- server.c and client.c: how the two programs start, over the answers of `socket`, `bind`, `accept` and
-- `connect`, where `none` and `false` are failures.
pub mod Accepted
use net_working_mini_net.Base.{
  ℕ, zero, suc, ◌-◌, ◌^◌, Bool, true, false, Option, none, some, List, [], ◌∷◌, if◌then◌else◌,
}
use net_working_mini_net.WordCount.{Table, task, count_ip}
use net_working_mini_net.WordCount.Messages.{client_main}

-- `struct train`: what a thread is given.
pub record Train : Type 0 where
  pub newfd : ℕ
  pub start : ℕ
  pub end : ℕ

-- How far `main` of server.c gets: it returns, it waits for a worker, or all threads are created.
pub data Accepting : Type 0 where
  returned : (code : ℕ) → Accepting
  waiting : Accepting
  all_created : Accepting

-- -1 as an `int`.
abbrev pub minus_one : ℕ
minus_one = 2 ^ 32 - 1

-- The loop over the workers from `index` on: the threads that are created, with their tasks.
unfoldable pub accept_workers :
    (left index len ip_num : ℕ) → List (Option ℕ) → List Train × Accepting
accept_workers zero index len ip_num accepts = ([], all_created)
accept_workers (suc left) index len ip_num [] = ([], waiting)
accept_workers (suc left) index len ip_num (none ∷ accepts) = ([], returned 1)
accept_workers (suc left) index len ip_num (some newfd ∷ accepts) =
    let (trains, end) = accept_workers left (suc index) len ip_num accepts in
    let (first, last) = task index len ip_num in
    (record { newfd = newfd; start = first; end = last } ∷ trains, end)

-- `main` of server.c up to the creation of the last thread; `len` is the length of the file.
unfoldable pub server_main :
    (socket : Option ℕ) (bound : Bool) (behind conf : List ℕ) (len : ℕ)
    → List (Option ℕ)
    → List Train × Accepting
unfolding accept_workers
server_main none bound behind conf len accepts = ([], returned minus_one)
server_main (some sfd) false behind conf len accepts = ([], returned minus_one)
server_main (some sfd) true behind conf len accepts =
    let ip_num = count_ip behind conf in accept_workers ip_num 0 len ip_num accepts

-- How `main` of client.c ends. It returns 0 behind the table that it sends, and waits for ever where its
-- task does not arrive.
pub data ClientEnd : Type 0 where
  returned : (code : ℕ) → ClientEnd
  sent_table : Table → ClientEnd
  blocked : ClientEnd

unfoldable pub client_end : Option Table → ClientEnd
client_end none = blocked
client_end (some table) = sent_table table

-- A failure of `socket` is only printed, and -1 passed to `connect`.
unfoldable pub client_run :
    (socket : Option ℕ) (connect : ℕ → Bool) (files : List ℕ → List ℕ) (behind stale : List ℕ)
    → List (List ℕ)
    → ClientEnd
unfolding client_main client_end
client_run none connect files behind stale segments =
    if connect minus_one then client_end (client_main files behind stale segments) else returned 1
client_run (some sfd) connect files behind stale segments =
    if connect sfd then client_end (client_main files behind stale segments) else returned 1
