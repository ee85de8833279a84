-- ===== src/ListHead/Example.antt =====
-- nat_stack/example/list_example.c: a client of list.h. The addresses that `malloc` gives are a
-- parameter; `free` of a node that is out of the list changes no list.
pub mod Prints
use net_working_mini_net.Base.{
  ℕ, zero, suc, ◌%◌, Bool, not, List, [], ◌∷◌, ◌==◌, if◌then◌else◌, map,
}
use net_working_mini_net.ListHead.{
  Ptr, Links, init_list_head, list_add_tail, list_delete_entry, list_for_each_entry,
}

-- The links of all nodes, and the field `number` of a `struct listnode`.
pub record Memory : Type 0 where
  pub links : Links
  pub number : Ptr → ℕ

-- The body of the first loop: the node `n` gets the number `i` and goes to the tail.
unfoldable pub add_node : (list n : Ptr) (i : ℕ) → Memory → Memory
add_node list n i m = record {
  links = list_add_tail m.links n list;
  number = λ a. if a == n then i else m.number a;
}

-- The test `entry->number % 2 == 0`.
unfoldable pub is_even : (number : Ptr → ℕ) → Ptr → Bool
is_even number a = number a % 2 == 0

-- The loop that deletes the even numbers and prints the others: the memory, and what is printed.
unfoldable pub odd_loop : ℕ → (list : Ptr) → Memory → (entry q : Ptr) → Memory × List ℕ
unfolding is_even
odd_loop zero list m entry q = (m, [])
odd_loop (suc fuel) list m entry q =
    let m' =
      (if is_even m.number entry
        then record m { links = list_delete_entry m.links entry }
        else m) in
    let rest = odd_loop fuel list m' q (m'.links.next q) in
    if entry == list
    then (m, [])
    else if is_even m.number entry
    then rest
    else (rest.0, m.number entry ∷ rest.1)

module _ (malloc : ℕ → Ptr) where
  unfoldable pub fill : (left i : ℕ) → (list : Ptr) → Memory → Memory
  unfolding add_node
  fill zero i list m = m
  fill (suc left) i list m = fill left (suc i) list (add_node list (malloc i) i m)

  -- `example`: what the two loops print, and the memory at the end.
  unfoldable pub example : (fuel : ℕ) → (list : Ptr) → Memory → List ℕ × List ℕ × Memory
  unfolding fill odd_loop
  example fuel list m =
      let filled = fill 10 0 list (record m { links = init_list_head m.links list }) in
      let first = filled.links.next list in
      let rest = odd_loop fuel list filled first (filled.links.next first) in
      (map filled.number (list_for_each_entry fuel filled.links list), rest.1, rest.0)
