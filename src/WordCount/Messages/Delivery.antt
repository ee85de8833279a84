-- ===== src/WordCount/Messages/Delivery.antt =====
-- When the client gets its task, and when it waits for ever.
use native.Mathlib.Nat.{pow-suc}
use net_working_mini_net.Base.{
  ℕ, zero, suc, ◌/◌, ◌^◌, ◌≤◌, ◌<◌, ◌≡◌, refl, ap, none, some, List, [], ◌∷◌, ◌++◌, leb, length,
  drop, true, arith,
}
use net_working_mini_net.WordCount.{c_string, zeros, calculate}
use net_working_mini_net.WordCount.Client.{NoNul, c_string-append}
use net_working_mini_net.WordCount.Messages.{
  filename, bytes_of, value_of, send_task, recv, overwrite, recv_long, recv_task, client_main,
}

length-bytes_of : (n v : ℕ) → length (bytes_of n v) ≡ n
unfolding bytes_of
length-bytes_of zero v = refl
length-bytes_of (suc n) v = omega (arith, length-bytes_of n (v / 256))

value_of-zeros : (n : ℕ) → value_of (zeros n) ≡ 0
unfolding value_of zeros
value_of-zeros zero = refl
value_of-zeros (suc n) = omega (arith, value_of-zeros n)

-- A number that fits into `n` bytes is read back, whatever zeros follow.
pub value_of-bytes_of :
    (n v : ℕ) (rest : List ℕ)
    → value_of rest ≡ 0
    → v < 256 ^ n
    → value_of (bytes_of n v ++ rest) ≡ v
unfolding value_of bytes_of
value_of-bytes_of zero v rest z h = omega arith
value_of-bytes_of (suc n) v rest z h =
    omega (arith, value_of-bytes_of n (v / 256) rest z (omega (arith, pow-suc 256 n)))

recv_all :
    (n : ℕ) (segment : List ℕ) (segments : List (List ℕ))
    → length segment ≤ n
    → recv n (segment ∷ segments) ≡ some (segment, segments)
unfolding recv
recv_all n segment segments h = ground arith

recv_long-bytes_of :
    (v : ℕ) (segments : List (List ℕ))
    → v < 2 ^ 64
    → recv_long (bytes_of 8 v ∷ segments) ≡ some (v, segments)
unfolding recv_long
recv_long-bytes_of v segments h =
    let e = recv_all 8 (bytes_of 8 v) segments (omega (arith, length-bytes_of 8 v)) in
    let same : value_of (overwrite (bytes_of 8 v) (zeros 8)) ≡ v =
      unfold overwrite in
      rw (length-bytes_of 8 v)
        (value_of-bytes_of 8 v (drop 8 (zeros 8)) (unfold zeros value_of in refl) (omega arith)) in
    rw e (ap (λ (w : ℕ). some (w, segments)) same)

filename-NoNul : NoNul filename
filename-NoNul = omega arith

-- If each call of `send` arrives as a segment of its own, the numbers have 64 bits, and the memory of
-- the client's buffer behind the 20 bytes of the name, 4 of them cleared, starts with a NUL, then the
-- client opens the server's file and counts exactly the part that the server has sent.
pub client_main-send_task :
    (files : List ℕ → List ℕ) (behind stale : List ℕ) (start end : ℕ)
    → c_string (drop 16 stale) ≡ []
    → start < 2 ^ 64
    → end < 2 ^ 64
    → client_main files behind stale (send_task start end)
      ≡ some (calculate behind (λ k. 0) start end (files filename))
unfolding client_main recv_task send_task
client_main-send_task files behind stale start end nul s e =
    let named = recv_all 1000 filename (bytes_of 8 start ∷ bytes_of 8 end ∷ []) (omega arith) in
    let name : c_string (overwrite filename (zeros 4 ++ stale)) ≡ filename =
      unfold overwrite zeros in c_string-append filename (drop 16 stale) filename-NoNul nul in
    rw (named, recv_long-bytes_of start (bytes_of 8 end ∷ []) s, recv_long-bytes_of end [] e, name)

-- Whatever arrives, if it is one segment of at most 1000 bytes, or two of at most 1000 and at most 8
-- bytes, the client waits for ever.
pub client_main-blocks :
    (files : List ℕ → List ℕ) (behind stale a b : List ℕ)
    → length a ≤ 1000
    → length b ≤ 8
    → (client_main files behind stale (a ∷ []) ≡ none)
      × (client_main files behind stale (a ∷ b ∷ []) ≡ none)
unfolding client_main recv_task recv_long recv
client_main-blocks files behind stale a b ha hb =
    let one : leb (length a) 1000 ≡ true = ground arith in
    let two : leb (length b) 8 ≡ true = ground arith in (rw one refl, rw (one, two) refl)
