-- ===== src/Tests/Lists.antt =====
-- The theorems on list.h at a ring of two entries: the head at 10, the entries at 11 and 12.
use net_working_mini_net.Base.{◌≡◌, refl, [], ◌∷◌, ◌==◌, if◌then◌else◌, arith}
use net_working_mini_net.ListHead.{Links, list_add_tail, list_delete_entry, list_for_each_entry}
use net_working_mini_net.ListHead.Chain.{IsRing}
use net_working_mini_net.ListHead.Race.{list_add_tail_raced, add_tails, list_add_tail_raced-loses}

abbrev two : Links
two = record {
  next = λ a. if a == 10 then 11 else if a == 11 then 12 else 10;
  prev = λ a. if a == 10 then 12 else if a == 11 then 10 else 11;
}

two-IsRing : IsRing two 10 (11 ∷ 12 ∷ [])
two-IsRing = record {
  chain = (refl, refl, (refl, refl, (refl, refl)));
  distinct = (refl, (refl, (refl, tt)));
}

-- The entry 12 is deleted while the node 13 is put in; 14 and 15 follow.
list_add_tail_raced-loses_example :
    (list_for_each_entry 3 (list_add_tail (list_delete_entry two 12) 13 10) 10 ≡ 11 ∷ 13 ∷ [])
    × (list_for_each_entry 3 (list_delete_entry (list_add_tail two 13 10) 12) 10 ≡ 11 ∷ 13 ∷ [])
    × (list_for_each_entry 3 (add_tails (list_add_tail_raced two 13 10 12) 10 (14 ∷ 15 ∷ [])) 10
        ≡ 11 ∷ [])
list_add_tail_raced-loses_example =
    list_add_tail_raced-loses two 10 (11 ∷ []) 12 13 (14 ∷ 15 ∷ []) 3 two-IsRing refl
      (refl, (refl, tt)) (omega arith)
