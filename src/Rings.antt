-- ===== src/Rings.antt =====
-- A hash table in memory, as mac.c and the two versions of the NAT lay it out: 256 circular lists of
-- list.h, whose nodes are the entries. The addresses of the list heads are a parameter, and so are those
-- that `malloc` gives. Buckets has the same loops on lists.
pub mod Stores
pub mod Short
pub mod Init
pub mod Insert
pub mod Write
pub mod Delete
use net_working_mini_net.Base.{ℕ, zero, suc, Bool, Option, none, some, ◌==◌, or_else, if◌then◌else◌}
use net_working_mini_net.ListHead.{Ptr, Links, init_list_head, list_add_tail, delete_where}

-- The fields `next` and `prev` of all nodes, and the rest of the entry at each address.
pub record Store (A : Type 0) : Type 0 where
  pub links : Links
  pub entry : Ptr → A

-- `init_list_head` on the heads from `i` on.
unfoldable pub init_heads : (heads : ℕ → Ptr) (left i : ℕ) → Links → Links
init_heads heads zero i h = h
init_heads heads (suc left) i h = init_heads heads left (suc i) (init_list_head h (heads i))

-- `delete_where` on the lists from `i` on.
unfoldable pub delete_lists :
    (heads : ℕ → Ptr) (fuel : ℕ) (test : Ptr → Bool) (left i : ℕ) → Links → Links
delete_lists heads fuel test zero i h = h
delete_lists heads fuel test (suc left) i h =
    delete_lists heads fuel test left (suc i) (delete_where fuel test h (heads i))

module _ {A : Type 0} where
  -- The fields of one entry are written.
  unfoldable pub set_entry : Store A → Ptr → A → Store A
  set_entry s n e = record s { entry = λ a. if a == n then e else s.entry a }

  -- A new node at the address `n` goes to the tail of the list at `head`.
  unfoldable pub add_node : (head n : Ptr) → A → Store A → Store A
  unfolding set_entry
  add_node head n e s = record (set_entry s n e) { links = list_add_tail s.links n head }

  -- The loop over one list, whose body returns at the first entry that passes a test. The fuel bounds
  -- the rounds. The successor that the safe loop reads before its body is not used after a return.
  unfoldable pub walk : ℕ → Store A → (Ptr → Bool) → (head pos : Ptr) → Option Ptr
  walk zero s test head pos = none
  walk (suc fuel) s test head pos =
      let rest = walk fuel s test head (s.links.next pos) in
      if pos == head then none else if test pos then some pos else rest

  -- The search of one list.
  unfoldable pub search_list : ℕ → Store A → (Ptr → Bool) → (head : Ptr) → Option Ptr
  unfolding walk
  search_list fuel s test head = walk fuel s test head (s.links.next head)

  -- The nested loops; `left` lists remain, the next of them at `i`.
  unfoldable pub first_node :
      (heads : ℕ → Ptr) (fuel : ℕ) (test : Ptr → Bool) (left i : ℕ) → Store A → Option Ptr
  unfolding search_list
  first_node heads fuel test zero i s = none
  first_node heads fuel test (suc left) i s =
      or_else (search_list fuel s test (heads i)) (first_node heads fuel test left (suc i) s)
