-- ===== src/ListHead.antt =====
-- nat_stack/include/list.h (switch_stack/include/list.h is the same text): the intrusive, circular,
-- doubly linked list. A pointer to a `struct list_head` is a number, and the memory holds the two
-- fields of the node at each address.
pub mod Chain
pub mod Edit
pub mod Frame
pub mod Walk
pub mod Race
pub mod Example
use net_working_mini_net.Base.{ℕ, zero, suc, Bool, List, [], ◌∷◌, ◌==◌, if◌then◌else◌}

abbrev pub Ptr : Type 0
Ptr = ℕ

pub record Links : Type 0 where
  pub next : Ptr → Ptr
  pub prev : Ptr → Ptr

-- `a->next = v`
unfoldable pub set_next : Links → Ptr → Ptr → Links
set_next h a v = record h { next = λ b. if a == b then v else h.next b }

-- `a->prev = v`
unfoldable pub set_prev : Links → Ptr → Ptr → Links
set_prev h a v = record h { prev = λ b. if a == b then v else h.prev b }

-- `list->next = list->prev = list`, the right assignment first.
unfoldable pub init_list_head : Links → Ptr → Links
unfolding set_next set_prev
init_list_head h list = set_next (set_prev h list list) list list

unfoldable pub list_empty : Links → Ptr → Bool
list_empty h list = h.next list == list

-- The four stores in the order of the source: they matter where `prev` and `next` are one node.
unfoldable pub list_insert : Links → Ptr → Ptr → Ptr → Links
unfolding set_next set_prev
list_insert h new prev next =
    let h₁ = set_prev h next new in
    let h₂ = set_next h₁ prev new in let h₃ = set_next h₂ new next in set_prev h₃ new prev

unfoldable pub list_add_head : Links → Ptr → Ptr → Links
unfolding list_insert
list_add_head h new head = list_insert h new head (h.next head)

unfoldable pub list_add_tail : Links → Ptr → Ptr → Links
unfolding list_insert
list_add_tail h new head = list_insert h new (h.prev head) head

-- `entry->next->prev = entry->prev; entry->prev->next = entry->next;` The second statement reads
-- the fields after the first store.
unfoldable pub list_delete_entry : Links → Ptr → Links
unfolding set_next set_prev
list_delete_entry h entry =
    let h₁ = set_prev h (h.next entry) (h.prev entry) in set_next h₁ (h₁.prev entry) (h₁.next entry)

-- `list_for_each_entry`: the entries that the loop visits, from `pos` on. The fuel bounds the rounds.
for_each : ℕ → Links → Ptr → Ptr → List Ptr
for_each zero h head pos = []
for_each (suc fuel) h head pos =
    let rest = for_each fuel h head (h.next pos) in if pos == head then [] else pos ∷ rest

unfoldable pub list_for_each_entry : ℕ → Links → Ptr → List Ptr
unfolding for_each
list_for_each_entry fuel h head = for_each fuel h head (h.next head)

-- `list_for_each_entry_safe` around a body that deletes `pos` where a test says so. `q` is read
-- before the body runs, so the loop goes on behind a deleted entry.
unfoldable pub for_each_safe : ℕ → (Ptr → Bool) → Ptr → Links → Ptr → Ptr → Links
for_each_safe zero test head h pos q = h
for_each_safe (suc fuel) test head h pos q =
    let h' = (if test pos then list_delete_entry h pos else h) in
    let rest = for_each_safe fuel test head h' q (h'.next q) in if pos == head then h else rest

unfoldable pub delete_where : ℕ → (Ptr → Bool) → Links → Ptr → Links
unfolding for_each_safe list_delete_entry
delete_where fuel test h head = for_each_safe fuel test head h (h.next head) (h.next (h.next head))
