-- ===== src/WordCount/Server.antt =====
-- server.c: the parts of the file that the workers count, and the sum of their tables.
use mathlib.Core.Path.{subst}
use native.Mathlib.Nat.{mul-le-mul_left, div-mul-le_self}
use net_working_mini_net.Base.{
  ◌^◌, ℕ, zero, suc, ◌+◌, ◌-◌, ◌*◌, ◌/◌, ◌≤◌, ◌<◌, ◌≡◌, ap, ◌∙◌, ◌==◌, if◌then◌else◌, List, [], ◌∷◌,
  ◌++◌, map, take, drop, length, arith, drop-drop, take-all, length-drop,
}
use net_working_mini_net.WordCount.{
  Table, c_string, start_file, end_file, end_file_final, tasks_from, add_table, add_tables,
  calculate, word_count,
}
use net_working_mini_net.WordCount.Client.{occurrences, NoNul, occurrences-split, calculate_lem}

-- The last byte of each of `n` parts of `q` bytes.
abbrev pub last_bytes : (q n : ℕ) → List ℕ → List ℕ
last_bytes q zero file = []
last_bytes q (suc n) file = take 1 (drop (q - 1) file) ++ last_bytes q n (drop q file)

occurrences-append :
    (k : ℕ) (s t : List ℕ) → occurrences k (s ++ t) ≡ occurrences k s + occurrences k t
occurrences-append k [] t = omega arith
occurrences-append k (c ∷ s) t = omega (arith, occurrences-append k s t)

pub add_tables_shift :
    (k : ℕ) (ans : Table) (tables : List Table)
    → add_tables ans tables k ≡ ans k + add_tables (λ j. 0) tables k
unfolding add_tables add_table
add_tables_shift k ans [] = omega arith
add_tables_shift k ans (t ∷ tables) = omega (
  arith,
  add_tables_shift k (add_table ans t) tables,
  add_tables_shift k (add_table (λ j. 0) t) tables,
)

-- The end of a part of the file.
pub part_end : (len n i : ℕ) → i ≤ n → len / n * i ≤ len
part_end len n i b = omega (arith, mul-le-mul_left (len / n) b, div-mul-le_self len n)

pub end_file_lem :
    (len index allnum : ℕ)
    → len / allnum * suc index < 2 ^ 64
    → 1 ≤ len / allnum * suc index
    → end_file len index allnum ≡ len / allnum * suc index - 1
unfolding end_file
end_file_lem len index allnum h k = omega arith

module _ (behind file : List ℕ) (ends : c_string behind ≡ []) (nonul : NoNul file) (k : ℕ)
    (letter : k < 26) (allnum : ℕ) (short : length file < 2 ^ 31) where
  abbrev tables : List (ℕ × ℕ) → List Table
  tables = map (λ (task : ℕ × ℕ). calculate behind (λ j. 0) task.0 task.1 file)

  worker :
      (start end : ℕ)
      → start < 2 ^ 31
      → end < 2 ^ 31
      → calculate behind (λ j. 0) start end file k
        ≡ occurrences k (take (end - start) (drop start file))
  worker start end s e =
      omega (arith, calculate_lem behind (λ j. 0) start end file k ends s e letter nonul)

  -- The workers from `index` on count what stands from their first byte on, less the last bytes.
  from_index :
      (left index : ℕ)
      → index + suc left ≡ allnum
      → 1 ≤ length file / allnum
      → occurrences k (drop (length file / allnum * index) file)
        ≡ add_tables (λ j. 0) (tables (tasks_from (suc left) index (length file) allnum)) k
          + occurrences k
              (last_bytes (length file / allnum) left (drop (length file / allnum * index) file))
  unfolding tasks_from add_tables add_table start_file end_file_final
  from_index zero index e h =
      let q = length file / allnum in
      let first_in : q * index ≤ length file = part_end (length file) allnum index (omega arith) in
      let d = drop (q * index) file in
      let task : (if index == allnum - 1 then length file else end_file (length file) index allnum)
          ≡ length file =
        ground arith in
      let all : take (length file - q * index) d ≡ d =
        take-all (length file - q * index) d (omega (arith, length-drop (q * index) file)) in
      rw task (
        omega (
          arith,
          worker (q * index) (length file) (omega (arith, first_in, short)) short,
          ap (occurrences k) all,
        ))
  from_index (suc left) index e h =
      let q = length file / allnum in
      let first_in : q * index ≤ length file = part_end (length file) allnum index (omega arith) in
      let inside : q * suc index ≤ length file =
        part_end (length file) allnum (suc index) (omega arith) in
      let pos : 1 ≤ q * suc index = omega (arith, h) in
      let d = drop (q * index) file in
      let task : (if index == allnum - 1 then length file else end_file (length file) index allnum)
          ≡ q * suc index - 1 =
        ground
          (arith, end_file_lem (length file) index allnum (omega (arith, inside, short)) pos) in
      let span : q * suc index - 1 - q * index ≡ q - 1 = omega arith in
      let next : drop q d ≡ drop (q * suc index) file =
        drop-drop q (q * index) file ∙ ap (λ (m : ℕ). drop m file) (omega arith) in
      let one : drop 1 (drop (q - 1) d) ≡ drop q d =
        drop-drop 1 (q - 1) d ∙ ap (λ (m : ℕ). drop m d) (omega arith) in
      let first = tables ((q * index, q * suc index - 1) ∷ []) in
      let rest = tables (tasks_from (suc left) (suc index) (length file) allnum) in
      rw (task, next)
        (omega (
          arith,
          add_tables_shift k
              (add_table (λ j. 0) (calculate behind (λ j. 0) (q * index) (q * suc index - 1) file))
              rest,
          worker (q * index) (q * suc index - 1) (omega (arith, first_in, short))
              (omega (arith, inside, short)),
          ap (λ (m : ℕ). occurrences k (take m d)) span,
          occurrences-split k (q - 1) d,
          occurrences-split k 1 (drop (q - 1) d),
          ap (occurrences k) one,
          ap (occurrences k) next,
          occurrences-append k (take 1 (drop (q - 1) d))
              (last_bytes q left (drop (q * suc index) file)),
          from_index left (suc index) (omega (arith, e)) h,
        ))

-- In a file without NUL bytes with at least as many bytes as there are workers and fewer than 2 ^ 31, and if
-- the memory behind the client's buffer starts with a NUL, the sum of the tables of all workers falls short of
-- the file's count of each letter by the last bytes of all parts but the final one.
pub word_count_lem :
    (behind file : List ℕ) (n k : ℕ)
    → c_string behind ≡ []
    → k < 26
    → NoNul file
    → length file < 2 ^ 31
    → 1 ≤ length file / suc n
    → occurrences k file
      ≡ word_count behind file (suc n) k + occurrences k (last_bytes (length file / suc n) n file)
unfolding word_count
word_count_lem behind file n k ends letter nonul short h =
    let none_before : length file / suc n * 0 ≡ 0 = omega arith in
    let start : drop (length file / suc n * 0) file ≡ file =
      ap (λ (m : ℕ). drop m file) none_before in
    subst
      (λ s.
        occurrences k s
        ≡ word_count behind file (suc n) k + occurrences k (last_bytes (length file / suc n) n s))
      start (from_index behind file ends nonul k letter (suc n) short n 0 (omega arith) h)
