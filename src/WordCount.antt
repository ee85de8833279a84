-- ===== src/WordCount.antt =====
-- socket-exp/socket-example: the letters of a file, counted by several workers. server.c splits the
-- file and adds up the workers' tables, client.c counts the letters of one part. A file is the list of its bytes.
pub mod Client
pub mod Server
pub mod Order
pub mod Threads
pub mod Messages
pub mod Answers
pub mod Start
use net_working_mini_net.Base.{
  ltb, u32, ◌^◌, ◌%◌, ℕ, zero, suc, ◌+◌, ◌-◌, ◌*◌, ◌/◌, Bool, ◌&&◌, ◌==◌, leb, if◌then◌else◌, List,
  [], ◌∷◌, ◌++◌, map, take, drop, length,
}

-- The bytes that `strlen` counts from the start of a string.
unfoldable pub c_string : List ℕ → List ℕ
c_string [] = []
c_string (c ∷ s) = if c == 0 then [] else c ∷ c_string s

-- `int table[26]`, by the index of the letter.
abbrev pub Table : Type 0
Table = ℕ → ℕ

unfoldable pub increment : Table → ℕ → Table
increment table i k = if k == i then suc (table k) else table k

-- The body of the two loops over a buffer.
unfoldable pub count_byte : Table → ℕ → Table
unfolding increment
count_byte table c =
    if leb b'A' c && leb c b'Z'
    then increment table (c - b'A')
    else if leb b'a' c && leb c b'z'
    then increment table (c - b'a')
    else table

unfoldable pub count_bytes : Table → List ℕ → Table
unfolding count_byte
count_bytes table [] = table
count_bytes table (c ∷ s) = count_bytes (count_byte table c) s

-- The number of zeros that `bzero` has left behind the bytes read.
unfoldable pub zeros : ℕ → List ℕ
zeros zero = []
zeros (suc n) = 0 ∷ zeros n

abbrev pub buffer_size : ℕ
buffer_size = 1000

-- `buf` as the loops read it after `read(fd, buf, n)`: `behind` is the memory that follows the array, which
-- `strlen` reads when the buffer is full.
unfoldable pub read_string : (behind fd : List ℕ) → (n : ℕ) → List ℕ
unfolding c_string zeros
read_string behind fd n =
    c_string (take n fd ++ (zeros (buffer_size - length (take n fd)) ++ behind))

-- The loop of `calculate`; a file descriptor is the bytes from its offset on.
unfoldable pub read_chunks :
    (behind : List ℕ) → (readnum : ℕ) → (fd : List ℕ) → Table → Table × List ℕ
unfolding count_bytes read_string
read_chunks behind zero fd table = (table, fd)
read_chunks behind (suc readnum) fd table =
    read_chunks behind readnum (drop buffer_size fd)
      (count_bytes table (read_string behind fd buffer_size))

-- The bytes behind the last full buffer, if there are any.
unfoldable pub read_rest : (behind : List ℕ) → (left_stay : ℕ) → (fd : List ℕ) → Table → Table
unfolding count_bytes read_string
read_rest behind zero fd table = table
read_rest behind (suc left_stay) fd table =
    count_bytes table (read_string behind fd (suc left_stay))

-- `lseek(fd, start, SEEK_SET)`: a negative `start` is refused, and the offset stays 0.
unfoldable pub lseek : (file : List ℕ) → (start : ℕ) → List ℕ
lseek file start = if ltb start (2 ^ 63) then drop start file else file

-- `end - start` on numbers of type `long`, each by its 64 bits.
unfoldable pub long_difference : (end start : ℕ) → ℕ
long_difference end start = (end + 2 ^ 64 - start) % 2 ^ 64

-- The 32 bits of `int readnum`: a `long` divided by 1000, toward 0, and cut to an `int`.
unfoldable pub read_number : (size : ℕ) → ℕ
read_number size =
    u32 (if ltb size (2 ^ 63) then size / buffer_size else 2 ^ 64 - (2 ^ 64 - size) / buffer_size)

-- The 32 bits of `int left_stay`; the product is one of `int`, which wraps around here.
unfoldable pub left_over : (size readnum : ℕ) → ℕ
left_over size readnum = u32 (u32 size + 2 ^ 32 - u32 (readnum * buffer_size))

-- An `int`, by its 32 bits, as a number of passes or of bytes: a negative one is none.
unfoldable pub count_of_int : (n : ℕ) → ℕ
count_of_int n = if ltb n (2 ^ 31) then n else 0

-- `start` and `end` are the 64 bits of the two numbers of type `long`.
unfoldable pub calculate : (behind : List ℕ) → Table → (start end : ℕ) → (file : List ℕ) → Table
unfolding read_chunks read_rest lseek long_difference read_number left_over count_of_int
calculate behind table start end file =
    let size = long_difference end start in
    let readnum = read_number size in
    let r = read_chunks behind (count_of_int readnum) (lseek file start) table in
    read_rest behind (count_of_int (left_over size readnum)) r.1 r.0

-- The lines of workers.conf, of which `countIP` reads 100 bytes; `behind` as above.
unfoldable pub count_newlines : List ℕ → ℕ
count_newlines [] = 0
count_newlines (c ∷ s) = if c == 10 then suc (count_newlines s) else count_newlines s

unfoldable pub count_ip : (behind conf : List ℕ) → ℕ
unfolding count_newlines c_string zeros
count_ip behind conf =
    count_newlines (c_string (take 100 conf ++ (zeros (100 - length (take 100 conf)) ++ behind)))

unfoldable pub start_file : (len index allnum : ℕ) → ℕ
start_file len index allnum = len / allnum * index

-- The 64 bits of the `long`: those of -1 in a file with fewer bytes than workers.
unfoldable pub end_file : (len index allnum : ℕ) → ℕ
end_file len index allnum = (len / allnum * suc index + 2 ^ 64 - 1) % 2 ^ 64

unfoldable pub end_file_final : (len : ℕ) → ℕ
end_file_final len = len

-- `_start` and `_end` of `struct train` for one worker.
abbrev pub task : (index len allnum : ℕ) → ℕ × ℕ
task index len allnum = (
  start_file len index allnum,
  if index == allnum - 1 then end_file_final len else end_file len index allnum,
)

-- The tasks of the workers from `index` on.
unfoldable pub tasks_from : (left index len allnum : ℕ) → List (ℕ × ℕ)
unfolding start_file end_file end_file_final
tasks_from zero index len allnum = []
tasks_from (suc left) index len allnum =
    task index len allnum ∷ tasks_from left (suc index) len allnum

-- The locked part of `handle_client`.
unfoldable pub add_table : Table → Table → Table
add_table ans table k = ans k + table k

-- The threads in the order in which they take the lock.
unfoldable pub add_tables : Table → List Table → Table
unfolding add_table
add_tables ans [] = ans
add_tables ans (table ∷ tables) = add_tables (add_table ans table) tables

-- The sum of the tables of `ip_num` workers, each of which counts the part of the file that `main` gives it.
-- `main` itself waits for the last thread only before it prints: the steps of its threads are in Threads.
unfoldable pub word_count : (behind file : List ℕ) → (ip_num : ℕ) → Table
unfolding calculate tasks_from add_tables
word_count behind file ip_num =
    add_tables (λ k. 0)
      (map (λ (task : ℕ × ℕ). calculate behind (λ k. 0) task.0 task.1 file)
        (tasks_from ip_num 0 (length file) ip_num))
