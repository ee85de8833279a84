-- ===== src/Switch/Mac/Aging.antt =====
-- The sweep: what one round deletes, and what the rounds of the thread achieve.
use mathlib.Core.Option
use net_working_mini_net.Base.{
  ℕ, zero, suc, ◌+◌, ◌^◌, ◌≤◌, ◌<◌, ◌≡◌, refl, sym, ap, ◌∙◌, inl, inr, not, true, false, Option,
  none, some, List, [], ◌∷◌, arith, find, keep, All, length, ◌↔◌, ◌==◌, ==_refl, Option-cases,
  Bool-cases, find-append, find-append_some,
}
use net_working_mini_net.Hash.{hash_8bits}
use net_working_mini_net.Buckets.{set_bucket, entries}
use net_working_mini_net.Buckets.Search.{entries-set_bucket_below}
use net_working_mini_net.Buckets.DropFirst.{
  drop_first, drop_first-append_some, drop_first-append_none, length-drop_first, find-nil,
  find-drop_first, keep-drop_first, Unique-drop_first, none_of_none, All-drop_first,
}
use net_working_mini_net.Switch.{MacPortEntry, MacPortMap}
use net_working_mini_net.Switch.Mac.{
  is_aged, sweep_list, sweep_from, sweep_aged_mac_port_entry, sweeping_mac_port_thread,
}
use net_working_mini_net.Switch.Mac.Lookup.{same_mac, IsUnique}

-- For an entry visited at most 2 ^ 31 - 1 seconds ago, and not in the future, the test with its
-- cast to `int` says aged exactly when 30 seconds have passed.
pub is_aged_iff :
    (now : ℕ) (e : MacPortEntry)
    → e.visited ≤ now
    → now < e.visited + 2 ^ 31
    → (is_aged now e ≡ true) ↔ (e.visited + 30 ≤ now)
unfolding is_aged
is_aged_iff now e h k = ground arith

-- What a sweep answers: the interface index of the deleted entry, or 0.
abbrev pub answer : Option MacPortEntry → ℕ
answer none = 0
answer (some e) = e.iface.index

pub sweep_list-some :
    (now : ℕ) (l : List MacPortEntry) (a : MacPortEntry)
    → find (is_aged now) l ≡ some a
    → sweep_list now l ≡ some (a.iface.index, drop_first (is_aged now) l)
unfolding sweep_list drop_first
sweep_list-some now [] a h = absurd (Option.none-ne-some a h)
sweep_list-some now (e ∷ l) a h = elim (Bool-cases (is_aged now e)) [
  | inl t ↦ let h' : some e ≡ some a = rw t at h in let q : e ≡ a = cc in rw (t, q)
  | inr t ↦ rw (t, sweep_list-some now l a (rw t at h))
]

pub sweep_list-none :
    (now : ℕ) (l : List MacPortEntry) → find (is_aged now) l ≡ none → sweep_list now l ≡ none
unfolding sweep_list
sweep_list-none now [] h = refl
sweep_list-none now (e ∷ l) h = elim (Bool-cases (is_aged now e)) [
  | inl t ↦ absurd (Option.none-ne-some e (sym (rw t at h)))
  | inr t ↦ rw (t, sweep_list-none now l (rw t at h))
]

-- One sweep from list `i` on: the answer, the entries that are left, and the lists before `i`.
record Swept (now left i : ℕ) (t : MacPortMap) : Type 0 where
  answers : (sweep_from now left i t).0 ≡ answer (find (is_aged now) (entries left i t))
  leaves : entries left i (sweep_from now left i t).1 ≡ drop_first (is_aged now) (entries left i t)
  below : (k : ℕ) → k < i → (sweep_from now left i t).1 k ≡ t k

sweep_from-Swept : (now left i : ℕ) (t : MacPortMap) → Swept now left i t
unfolding sweep_from entries drop_first set_bucket
sweep_from-Swept now zero i t = record { answers = refl; leaves = refl; below = λ k h. refl }
sweep_from-Swept now (suc left) i t = elim (Option-cases (find (is_aged now) (t i))) [
  | inl e ↦
      let r = sweep_from-Swept now left (suc i) t in
      let n = sweep_list-none now (t i) e in
      record {
        answers = rw (n, find-append (is_aged now) (t i) (entries left (suc i) t) e) r.answers;
        leaves =
            rw (n, r.below i (omega arith), r.leaves)
              (sym (drop_first-append_none (is_aged now) (t i) (entries left (suc i) t) e));
        below = λ k h. rw n (r.below k (omega arith));
      }
  | inr (a, e) ↦
      let l = drop_first (is_aged now) (t i) in
      let n = sweep_list-some now (t i) a e in
      let self : (i == i) ≡ true = ==_refl i in
      record {
        answers = rw (n, find-append_some (is_aged now) (t i) (entries left (suc i) t) a e);
        leaves =
            rw (n, self, entries-set_bucket_below left (suc i) i t l (omega arith))
              (sym (drop_first-append_some (is_aged now) (t i) (entries left (suc i) t) a e));
        below = λ k h. let ne : (k == i) ≡ false = ground arith in rw (n, ne);
      }
]

-- A sweep deletes the first aged entry in the order of the lists and answers the index of its
-- interface; if no entry is aged it deletes nothing and answers 0.
pub sweep_aged_mac_port_entry_lem :
    (now : ℕ) (t : MacPortMap)
    → ((sweep_aged_mac_port_entry now t).0 ≡ answer (find (is_aged now) (entries hash_8bits 0 t)))
      × (entries hash_8bits 0 (sweep_aged_mac_port_entry now t).1
          ≡ drop_first (is_aged now) (entries hash_8bits 0 t))
unfolding sweep_aged_mac_port_entry
sweep_aged_mac_port_entry_lem now t =
    let s = sweep_from-Swept now hash_8bits 0 t in (s.answers, s.leaves)

-- A sweep keeps every entry that is not aged, in order.
pub sweep-keeps_young :
    (now : ℕ) (t : MacPortMap)
    → keep (λ e. not (is_aged now e)) (entries hash_8bits 0 (sweep_aged_mac_port_entry now t).1)
      ≡ keep (λ e. not (is_aged now e)) (entries hash_8bits 0 t)
sweep-keeps_young now t =
    ap (keep (λ e. not (is_aged now e))) (sweep_aged_mac_port_entry_lem now t).1
    ∙ keep-drop_first (is_aged now) (entries hash_8bits 0 t)

pub sweep-IsUnique :
    (now : ℕ) (t : MacPortMap) → IsUnique t → IsUnique (sweep_aged_mac_port_entry now t).1
sweep-IsUnique now t u =
    rw (sweep_aged_mac_port_entry_lem now t).1
      (Unique-drop_first same_mac (is_aged now) (entries hash_8bits 0 t) u)

-- The rounds of the thread, at times that go on from `now`, as one entry sees them: it was not visited in
-- the future, and each round comes at most 2 ^ 31 - 1 seconds behind its visit.
pub record InWindow (now : ℕ) (times : List ℕ) (e : MacPortEntry) : Type 0 where
  pub visited : e.visited ≤ now
  pub rounds : All (λ later. (now ≤ later) × (later < e.visited + 2 ^ 31)) times

-- Every entry of the table sees the rounds in its window.
abbrev pub WithinWindow : ℕ → List ℕ → MacPortMap → Type 0
WithinWindow now times t = All (InWindow now times) (entries hash_8bits 0 t)

stays_aged :
    (now later : ℕ) (e : MacPortEntry)
    → e.visited ≤ now
    → now ≤ later
    → later < e.visited + 2 ^ 31
    → is_aged now e ≡ true
    → is_aged later e ≡ true
stays_aged now later e h k b aged =
    (is_aged_iff later e (omega arith) b).1
      (omega (arith, (is_aged_iff now e h (omega arith)).0 aged))

first_round :
    (now later : ℕ) (times : List ℕ) (xs : List MacPortEntry)
    → All (InWindow now (later ∷ times)) xs
    → All (λ e. is_aged now e ≡ true → is_aged later e ≡ true) xs
first_round now later times [] w = tt
first_round now later times (e ∷ xs) w = (
  stays_aged now later e w.0.visited w.0.rounds.0.0 w.0.rounds.0.1,
  first_round now later times xs w.1,
)

later_rounds :
    (now later : ℕ) (times : List ℕ) (xs : List MacPortEntry)
    → All (InWindow now (later ∷ times)) xs
    → All (InWindow now times) xs
later_rounds now later times [] w = tt
later_rounds now later times (e ∷ xs) w =
    (record { visited = w.0.visited; rounds = w.0.rounds.1 }, later_rounds now later times xs w.1)

sweeping-none :
    (now : ℕ) (times : List ℕ) (t : MacPortMap)
    → find (is_aged now) (entries hash_8bits 0 t) ≡ none
    → find (is_aged now) (entries hash_8bits 0 (sweeping_mac_port_thread times t)) ≡ none
unfolding sweeping_mac_port_thread
sweeping-none now [] t h = h
sweeping-none now (later ∷ times) t h =
    sweeping-none now times (sweep_aged_mac_port_entry later t).1 (
      rw (sweep_aged_mac_port_entry_lem later t).1
        (find-drop_first (is_aged now) (is_aged later) (entries hash_8bits 0 t) h))

-- If no entry was visited in the future, no round comes before `now`, and each comes at most 2 ^ 31 - 1
-- seconds behind the visit of every entry of the table, then after as many rounds as there are entries none
-- is left of those that were aged at `now`.
pub sweeping_mac_port_thread-clears :
    (now : ℕ) (times : List ℕ) (t : MacPortMap)
    → WithinWindow now times t
    → length (entries hash_8bits 0 t) ≤ length times
    → find (is_aged now) (entries hash_8bits 0 (sweeping_mac_port_thread times t)) ≡ none
unfolding sweeping_mac_port_thread
sweeping_mac_port_thread-clears now [] t w enough =
    find-nil (is_aged now) (entries hash_8bits 0 t) enough
sweeping_mac_port_thread-clears now (later ∷ times) t w enough =
    let xs = entries hash_8bits 0 t in
    let (_, left) = sweep_aged_mac_port_entry_lem later t in
    elim (Option-cases (find (is_aged later) xs)) [
      | inl e ↦ sweeping-none now times (sweep_aged_mac_port_entry later t).1 (
          rw left (
            find-drop_first (is_aged now) (is_aged later) xs
              (none_of_none (is_aged now) (is_aged later) xs (first_round now later times xs w) e)))
      | inr (a, e) ↦
          sweeping_mac_port_thread-clears now times (sweep_aged_mac_port_entry later t).1
            (rw left (
              All-drop_first (InWindow now times) (is_aged later) xs
                (later_rounds now later times xs w)))
            (rw left (omega (arith, length-drop_first (is_aged later) xs a e)))
    ]
