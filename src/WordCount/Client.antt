-- ===== src/WordCount/Client.antt =====
-- `calculate` of client.c counts the letters of its part of the file.
use net_working_mini_net.Base.{
  ltb, u32, true, false, ◌^◌, ◌%◌, ◌≤◌, ◌⊎◌, inl, inr, ℕ, zero, suc, ◌+◌, ◌-◌, ◌*◌, ◌/◌, ◌<◌, ◌≡◌,
  ◌≢◌, refl, sym, ap, ◌∙◌, Bool, ◌||◌, ◌==◌, if◌then◌else◌, List, [], ◌∷◌, ◌++◌, take, drop, length,
  All, arith, drop-drop,
}
use net_working_mini_net.WordCount.{
  c_string, Table, increment, count_byte, count_bytes, zeros, buffer_size, read_string, read_chunks,
  read_rest, calculate, lseek, long_difference, read_number, left_over, count_of_int,
}

le_or_lt : (a b : ℕ) → (a ≤ b) ⊎ (b < a)
le_or_lt a b = omega arith

pos_or_zero : (t : ℕ) → (t ≡ 0) ⊎ (0 < t)
pos_or_zero t = omega arith

-- How often the letter with index `k` stands in the bytes, as a capital or not.
abbrev pub occurrences : (k : ℕ) → List ℕ → ℕ
occurrences k [] = 0
occurrences k (c ∷ s) = (if c == b'A' + k || c == b'a' + k then 1 else 0) + occurrences k s

abbrev pub NoNul : List ℕ → Type 0
NoNul s = All (λ c. c ≢ 0) s

pub occurrences-split :
    (k n : ℕ) (s : List ℕ) → occurrences k s ≡ occurrences k (take n s) + occurrences k (drop n s)
occurrences-split k zero s = omega arith
occurrences-split k (suc n) [] = refl
occurrences-split k (suc n) (c ∷ s) = omega (arith, occurrences-split k n s)

pub NoNul-take : (n : ℕ) (s : List ℕ) → NoNul s → NoNul (take n s)
NoNul-take zero s h = tt
NoNul-take (suc n) [] h = tt
NoNul-take (suc n) (c ∷ s) h = (h.0, NoNul-take n s h.1)

pub NoNul-drop : (n : ℕ) (s : List ℕ) → NoNul s → NoNul (drop n s)
NoNul-drop zero s h = h
NoNul-drop (suc n) [] h = tt
NoNul-drop (suc n) (c ∷ s) h = NoNul-drop n s h.1

count_byte_lem :
    (k : ℕ) (table : Table) (c : ℕ)
    → k < 26
    → count_byte table c k ≡ table k + (if c == b'A' + k || c == b'a' + k then 1 else 0)
unfolding count_byte increment
count_byte_lem k table c h = ground arith

count_bytes_lem :
    (k : ℕ) (table : Table) (s : List ℕ)
    → k < 26
    → count_bytes table s k ≡ table k + occurrences k s
unfolding count_bytes
count_bytes_lem k table [] h = omega arith
count_bytes_lem k table (c ∷ s) h =
    omega (arith, count_bytes_lem k (count_byte table c) s h, count_byte_lem k table c h)

pub c_string-append : (s rest : List ℕ) → NoNul s → c_string rest ≡ [] → c_string (s ++ rest) ≡ s
unfolding c_string
c_string-append [] rest h e = e
c_string-append (c ∷ s) rest h e =
    let ne : (c == 0) ≡ Bool.false = ground arith in
    rw ne (ap (λ (l : List ℕ). c ∷ l) (c_string-append s rest h.1 e))

c_string-zeros :
    (n : ℕ) (behind : List ℕ) → c_string behind ≡ [] → c_string (zeros n ++ behind) ≡ []
unfolding c_string zeros
c_string-zeros zero behind e = e
c_string-zeros (suc n) behind e = refl

module _ (behind : List ℕ) (ends : c_string behind ≡ []) (k : ℕ) (letter : k < 26) where
  read_string_lem : (fd : List ℕ) (n : ℕ) → NoNul fd → read_string behind fd n ≡ take n fd
  unfolding read_string
  read_string_lem fd n h =
      c_string-append (take n fd) (zeros (buffer_size - length (take n fd)) ++ behind)
        (NoNul-take n fd h) (c_string-zeros (buffer_size - length (take n fd)) behind ends)

  count_read :
      (table : Table) (fd : List ℕ) (n : ℕ)
      → NoNul fd
      → count_bytes table (read_string behind fd n) k ≡ table k + occurrences k (take n fd)
  count_read table fd n h = rw (read_string_lem fd n h) (count_bytes_lem k table (take n fd) letter)

  read_chunks_fd :
      (n : ℕ) (fd : List ℕ) (table : Table)
      → (read_chunks behind n fd table).1 ≡ drop (n * buffer_size) fd
  unfolding read_chunks
  read_chunks_fd zero fd table = refl
  read_chunks_fd (suc n) fd table =
      read_chunks_fd n (drop buffer_size fd) _
      ∙ drop-drop (n * buffer_size) buffer_size fd
      ∙ ap (λ (m : ℕ). drop m fd) (omega arith)

  read_chunks_lem :
      (n : ℕ) (fd : List ℕ) (table : Table)
      → NoNul fd
      → (read_chunks behind n fd table).0 k + occurrences k (drop (n * buffer_size) fd)
        ≡ table k + occurrences k fd
  unfolding read_chunks
  read_chunks_lem zero fd table h = refl
  read_chunks_lem (suc n) fd table h =
      let s = read_string behind fd buffer_size in
      let rest = drop buffer_size fd in
      let next : drop (suc n * buffer_size) fd ≡ drop (n * buffer_size) rest =
        ap (λ (m : ℕ). drop m fd) (omega arith)
        ∙ sym (drop-drop (n * buffer_size) buffer_size fd) in
      rw next (
        read_chunks_lem n rest (count_bytes table s) (NoNul-drop buffer_size fd h)
        ∙ omega (arith, count_read table fd buffer_size h, occurrences-split k buffer_size fd))

  read_rest_lem :
      (n : ℕ) (fd : List ℕ) (table : Table)
      → NoNul fd
      → read_rest behind n fd table k ≡ table k + occurrences k (take n fd)
  unfolding read_rest
  read_rest_lem zero fd table h = omega arith
  read_rest_lem (suc n) fd table h = count_read table fd (suc n) h

-- For numbers below 2 ^ 31 the machine's differences are those of the numbers, and a part that ends before
-- it starts has no pass and no rest.
pub lseek-drop : (file : List ℕ) (start : ℕ) → start < 2 ^ 31 → lseek file start ≡ drop start file
unfolding lseek
lseek-drop file start s = let b : ltb start (2 ^ 63) ≡ true = ground arith in rw b refl

count_of_int-le : (n : ℕ) → n < 2 ^ 31 → count_of_int n ≡ n
unfolding count_of_int
count_of_int-le n h = ground arith

count_of_int-negative : (n : ℕ) → 2 ^ 31 ≤ n → count_of_int n ≡ 0
unfolding count_of_int
count_of_int-negative n h = ground arith

read_number-le : (d : ℕ) → d < 2 ^ 31 → read_number d ≡ d / 1000
unfolding read_number
read_number-le d h = let b : ltb d (2 ^ 63) ≡ true = ground arith in rw b (omega arith)

read_number-negative :
    (d : ℕ) → 0 < d → d < 2 ^ 31 → read_number (2 ^ 64 - d) ≡ (2 ^ 32 - d / 1000) % 2 ^ 32
unfolding read_number
read_number-negative d pos h =
    let b : ltb (2 ^ 64 - d) (2 ^ 63) ≡ false = ground arith in
    let back : 2 ^ 64 - (2 ^ 64 - d) ≡ d = omega arith in rw (b, back) (omega arith)

left_over-le : (d : ℕ) → d < 2 ^ 31 → left_over d (d / 1000) ≡ d - d / 1000 * 1000
unfolding left_over
left_over-le d h = omega arith

-- A difference of -d.
no_passes : (d : ℕ) → d < 2 ^ 31 → count_of_int ((2 ^ 32 - d / 1000) % 2 ^ 32) ≡ 0
no_passes d h = elim (pos_or_zero (d / 1000)) [
  | inl z ↦ rw z (unfold count_of_int in refl)
  | inr q ↦ count_of_int-negative _ (omega arith)
]

left_over-negative :
    (d : ℕ)
    → 0 < d
    → d < 2 ^ 31
    → count_of_int (left_over (2 ^ 64 - d) ((2 ^ 32 - d / 1000) % 2 ^ 32)) ≡ 0
unfolding left_over
left_over-negative d pos h = elim (pos_or_zero (d % 1000)) [
  | inl z ↦
      let none_left : u32 (u32 (2 ^ 64 - d) + 2 ^ 32 - u32 ((2 ^ 32 - d / 1000) % 2 ^ 32 * 1000))
          ≡ 0 =
        omega arith in
      rw none_left (unfold count_of_int in refl)
  | inr q ↦ count_of_int-negative _ (omega arith)
]

passes_negative :
    (start end : ℕ)
    → start < 2 ^ 31
    → end < start
    → (count_of_int (read_number ((end + 2 ^ 64 - start) % 2 ^ 64)) ≡ (end - start) / 1000)
      × (count_of_int (
            left_over
              ((end + 2 ^ 64 - start) % 2 ^ 64)
              (read_number ((end + 2 ^ 64 - start) % 2 ^ 64)))
          ≡ end - start - (end - start) / 1000 * 1000)
passes_negative start end s lt =
    let d = start - end in
    let size : (end + 2 ^ 64 - start) % 2 ^ 64 ≡ 2 ^ 64 - d = omega arith in
    let nothing : end - start ≡ 0 = omega arith in
    rw (size, nothing, read_number-negative d (omega arith) (omega arith))
      (no_passes d (omega arith), left_over-negative d (omega arith) (omega arith))

passes_lem :
    (start end : ℕ)
    → start < 2 ^ 31
    → end < 2 ^ 31
    → (count_of_int (read_number (long_difference end start)) ≡ (end - start) / 1000)
      × (count_of_int
            (left_over (long_difference end start) (read_number (long_difference end start)))
          ≡ end - start - (end - start) / 1000 * 1000)
unfolding long_difference
passes_lem start end s e = elim (le_or_lt start end) [
  | inl le ↦
      let size : (end + 2 ^ 64 - start) % 2 ^ 64 ≡ end - start = omega arith in
      rw
        (size, read_number-le (end - start) (omega arith), left_over-le (end - start) (omega arith))
        (
          count_of_int-le ((end - start) / 1000) (omega arith),
          count_of_int-le (end - start - (end - start) / 1000 * 1000) (omega arith),
        )
  | inr lt ↦ passes_negative start end s lt
]

-- In a file without NUL bytes, and if the memory behind the buffer starts with one (where `behind` is
-- as `strlen` finds it), `calculate` adds to each letter's count how often the letter stands between
-- `start` and `end`, the byte at `end` left out, if both are below 2 ^ 31 and not negative; a part behind
-- the end of the file, or one that ends before it starts, counts nothing.
pub calculate_lem :
    (behind : List ℕ) (table : Table) (start end : ℕ) (file : List ℕ) (k : ℕ)
    → c_string behind ≡ []
    → start < 2 ^ 31
    → end < 2 ^ 31
    → k < 26
    → NoNul file
    → calculate behind table start end file k
      ≡ table k + occurrences k (take (end - start) (drop start file))
unfolding calculate
calculate_lem behind table start end file k ends s e letter h =
    let p = passes_lem start end s e in
    let fd = drop start file in
    let n = end - start in
    let q = n / buffer_size in
    let c = read_chunks behind q fd table in
    let nonul = NoNul-drop start file h in
    let at_fd : c.1 ≡ drop (q * buffer_size) fd = read_chunks_fd behind ends k letter q fd table in
    let nonul' : NoNul c.1 = rw at_fd (NoNul-drop (q * buffer_size) fd nonul) in
    let last : drop (n - q * buffer_size) c.1 ≡ drop n fd =
      ap (drop (n - q * buffer_size)) at_fd
      ∙ drop-drop (n - q * buffer_size) (q * buffer_size) fd
      ∙ ap (λ (m : ℕ). drop m fd) (omega arith) in
    rw (lseek-drop file start s, p.0, p.1)
      (omega (
        arith,
        read_rest_lem behind ends k letter (n - q * buffer_size) c.1 c.0 nonul',
        read_chunks_lem behind ends k letter q fd table nonul,
        occurrences-split k n fd,
        occurrences-split k (n - q * buffer_size) c.1,
        ap (occurrences k) last,
        ap (occurrences k) at_fd,
      ))
