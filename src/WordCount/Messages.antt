-- ===== src/WordCount/Messages.antt =====
-- server.c and client.c: the task as it goes over the connection. What arrives is a list of segments:
-- TCP keeps the order of the bytes, and not the bounds of the calls of `send`.
pub mod Delivery
use mathlib.Core.Option
use net_working_mini_net.Base.{
  ℕ, zero, suc, ◌+◌, ◌*◌, ◌/◌, ◌%◌, Option, none, some, List, [], ◌∷◌, ◌++◌, if◌then◌else◌, leb,
  length, take, drop, ◌>>=◌,
}
use net_working_mini_net.WordCount.{Table, c_string, zeros, calculate}

-- The string "../war_and_peace.txt", whose `strlen` bytes are sent, without a NUL.
abbrev pub filename : List ℕ
filename =
    b'.' ∷ b'.' ∷ b'/' ∷ b'w' ∷ b'a' ∷ b'r' ∷ b'_' ∷ b'a' ∷ b'n' ∷ b'd' ∷ b'_' ∷ b'p' ∷ b'e' ∷ b'a'
    ∷ b'c' ∷ b'e' ∷ b'.' ∷ b't' ∷ b'x' ∷ b't' ∷ []

-- The `n` bytes of a number in the memory of a little-endian host, and the number without sign that the
-- bits of bytes stand for.
unfoldable pub bytes_of : (n v : ℕ) → List ℕ
bytes_of zero v = []
bytes_of (suc n) v = (v % 256) ∷ bytes_of n (v / 256)

unfoldable pub value_of : List ℕ → ℕ
value_of [] = 0
value_of (b ∷ bs) = b + 256 * value_of bs

abbrev pub sizeof_long : ℕ
sizeof_long = 8

-- The three calls of `send` in `handle_client`.
unfoldable pub send_task : (start end : ℕ) → List (List ℕ)
unfolding bytes_of
send_task start end = filename ∷ bytes_of sizeof_long start ∷ bytes_of sizeof_long end ∷ []

-- `recv` of at most `n` bytes; `none` where it waits for bytes that never come.
unfoldable pub recv : (n : ℕ) → List (List ℕ) → Option (List ℕ × List (List ℕ))
recv n [] = none
recv n (segment ∷ segments) =
    if leb (length segment) n
    then some (segment, segments)
    else some (take n segment, drop n segment ∷ segments)

-- Bytes stored over the start of a block of memory.
unfoldable pub overwrite : (bytes old : List ℕ) → List ℕ
overwrite bytes old = bytes ++ drop (length bytes) old

-- A `long` that is 0, and what the received bytes make of it, as the number that its 64 bits give:
-- -1 is 2 ^ 64 - 1.
unfoldable pub recv_long : List (List ℕ) → Option (ℕ × List (List ℕ))
unfolding recv overwrite value_of zeros
recv_long segments =
    Option.map (λ (r : List ℕ × List (List ℕ)). (value_of (overwrite r.0 (zeros sizeof_long)), r.1))
      (recv sizeof_long segments)

-- `main` of client.c up to the call of `calculate`: the name, the start and the end. The call
-- `bzero(buf, sizeof(1000))` clears the four bytes of an `int`; `stale` is the memory behind them.
unfoldable pub recv_task : (stale : List ℕ) → List (List ℕ) → Option (List ℕ × ℕ × ℕ)
recv_task stale segments = do
  named ← recv 1000 segments
  started ← recv_long (named.1)
  ended ← recv_long (started.1)
  some (c_string (overwrite (named.0) (zeros 4 ++ stale)), started.0, ended.0)

-- The table that the client sends back. A file that cannot be opened is read as an empty one.
unfoldable pub client_main :
    (files : List ℕ → List ℕ) (behind stale : List ℕ) → List (List ℕ) → Option Table
unfolding recv_task
client_main files behind stale segments =
    Option.map (λ (task : List ℕ × ℕ × ℕ). calculate behind (λ k. 0) task.1 task.2 (files task.0))
      (recv_task stale segments)
