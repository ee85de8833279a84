-- ===== src/WordCount/Answers.antt =====
-- server.c and client.c: the table that a worker sends back, and the whole conversation with it.
pub mod Conversation
pub mod Whole
use mathlib.Core.Option
use net_working_mini_net.Base.{
  ℕ, zero, suc, ◌*◌, Option, none, some, List, [], ◌∷◌, ◌++◌, take, drop,
}
use net_working_mini_net.WordCount.{Table, add_table}
use net_working_mini_net.WordCount.Messages.{
  bytes_of, value_of, send_task, recv, overwrite, client_main,
}

abbrev pub sizeof_int : ℕ
sizeof_int = 4

-- The bytes of `table[i]`, `table[i + 1]`, ...
unfoldable pub answer_bytes : (left i : ℕ) → Table → List ℕ
unfolding bytes_of
answer_bytes zero i table = []
answer_bytes (suc left) i table = bytes_of sizeof_int (table i) ++ answer_bytes left (suc i) table

-- `send(sfd, table, sizeof(int) * 26, 0)`
unfoldable pub send_answer : Table → List (List ℕ)
unfolding answer_bytes
send_answer table = answer_bytes 26 0 table ∷ []

-- The `int` with index `k` in a block of memory.
unfoldable pub int_at : List ℕ → (k : ℕ) → ℕ
unfolding value_of
int_at bytes k = value_of (take sizeof_int (drop (sizeof_int * k) bytes))

-- The bytes that a call of `recv` has stored; none if the connection was closed.
unfoldable pub stored : Option (List ℕ × List (List ℕ)) → List ℕ
stored none = []
stored (some r) = r.0

-- `table` behind the call of `recv`, whose result is not tested; `stale` is what stood there before.
unfoldable pub recv_answer : (stale : List ℕ) → List (List ℕ) → Table
unfolding int_at overwrite recv stored
recv_answer stale segments = int_at (overwrite (stored (recv (26 * sizeof_int) segments)) stale)

-- `handle_client` with a client at the other end, each call of `send` arriving as a segment of its own:
-- the sum behind it, or `none` where the client waits for ever.
unfoldable pub handle_client :
    (files : List ℕ → List ℕ) (behind stale stale' : List ℕ)
    → (ans : Table) → (start end : ℕ) → Option Table
unfolding client_main send_task recv_answer send_answer add_table
handle_client files behind stale stale' ans start end =
    Option.map (λ table. add_table ans (recv_answer stale' (send_answer table)))
      (client_main files behind stale (send_task start end))
