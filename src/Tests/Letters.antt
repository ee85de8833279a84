-- ===== src/Tests/Letters.antt =====
-- The theorem on the letter counts of one worker at the text "AbacaB".
use net_working_mini_net.Base.{◌^◌, ℕ, ◌+◌, ◌-◌, ◌≡◌, refl, List, [], ◌∷◌, take, drop, arith}
use net_working_mini_net.WordCount.{
  c_string, calculate, long_difference, read_number, left_over, count_of_int, read_chunks,
  read_rest,
}
use net_working_mini_net.WordCount.Client.{occurrences, NoNul, calculate_lem}

abbrev text : List ℕ
text = b'A' ∷ b'b' ∷ b'a' ∷ b'c' ∷ b'a' ∷ b'B' ∷ []

text-NoNul : NoNul text
text-NoNul =
    (omega arith, (omega arith, (omega arith, (omega arith, (omega arith, (omega arith, tt))))))

ends : c_string (0 ∷ []) ≡ []
unfolding c_string
ends = refl

calculate_lem_example :
    calculate (0 ∷ []) (λ k. 1) 1 5 text 0 ≡ 1 + occurrences 0 (take (5 - 1) (drop 1 text))
calculate_lem_example =
    calculate_lem (0 ∷ []) (λ k. 1) 1 5 text 0 ends (omega arith) (omega arith) (omega arith)
      text-NoNul

-- An end of -1, the end of a part of a file with fewer bytes than workers, counts nothing.
negative_end : calculate (0 ∷ []) (λ k. 1) 0 (2 ^ 64 - 1) text 0 ≡ 1
unfolding calculate long_difference read_number left_over count_of_int read_chunks read_rest
negative_end = refl

-- A difference of 1000 * 2 ^ 32 leaves a number of passes of 0 when it is cut to an `int`.
too_long : calculate (0 ∷ []) (λ k. 1) 0 4294967296000 text 0 ≡ 1
unfolding calculate long_difference read_number left_over count_of_int read_chunks read_rest
too_long = refl
