-- ===== src/ThreadExample/Progress.antt =====
-- The locked parts of the two threads exclude each other, and no run gets stuck.
use net_working_mini_net.Base.{
  ℕ, ◌≡◌, ◌≢◌, ◌⊎◌, refl, ◌∙◌, inl, inr, true, false, ◌&&◌, arith, Bool-cases,
}
use net_working_mini_net.ThreadExample.{
  Name, t1, t2, Thread, idle, asleep, awake, locked, printed, ended, Main, creating, joining,
  returned, System, Step, create, wake, lock, print, unlock, join, Reach,
}
use net_working_mini_net.ThreadExample.Output.{inside, Inv, Reach-Inv}

module _ (rand : Name → ℕ) where
  Moves : System → Type 0
  Moves s = (s' : System) × Step rand s s'

  -- A thread that holds the lock can move.
  inside-Moves :
      (s : System) (t : Name) (th : Thread) → s.threads t ≡ th → inside th ≡ true → Moves s
  unfolding Moves
  inside-Moves s t idle e h = absurd (ground arith)
  inside-Moves s t asleep e h = absurd (ground arith)
  inside-Moves s t awake e h = absurd (ground arith)
  inside-Moves s t locked e h = (_, print t e)
  inside-Moves s t printed e h = (_, unlock t e)
  inside-Moves s t ended e h = absurd (ground arith)

  -- A thread that `main` waits for has ended, or something moves.
  waits :
      (s : System) (t : Name) (th : Thread)
      → Inv rand s
      → s.threads t ≡ th
      → th ≢ idle
      → (th ≡ ended) ⊎ Moves s
  unfolding Moves
  waits s t idle inv e n = absurd (n refl)
  waits s t asleep inv e n = inr (_, wake t e)
  waits s t awake inv e n = elim (Bool-cases (inside (s.threads t1))) [
    | inl i ↦ inr (inside-Moves s t1 (s.threads t1) refl i)
    | inr o ↦ elim (Bool-cases (inside (s.threads t2))) [
      | inl i ↦ inr (inside-Moves s t2 (s.threads t2) refl i)
      | inr o' ↦ inr (_, lock t e (inv.held ∙ rw (o, o') refl))
    ]
  ]
  waits s t locked inv e n = inr (_, print t e)
  waits s t printed inv e n = inr (_, unlock t e)
  waits s t ended inv e n = inl refl

  goes_on_or_returned :
      (s : System) (m : Main) → s.main ≡ m → Inv rand s → (s.main ≡ returned) ⊎ Moves s
  unfolding Moves
  goes_on_or_returned s (creating t) e inv = inr (_, create t e)
  goes_on_or_returned s (joining t1) e inv =
      let j = rw e at inv.joined in
      elim (waits s t1 (s.threads t1) inv refl j.0) [ inl d ↦ inr (_, join t1 e d) | inr m ↦ inr m ]
  goes_on_or_returned s (joining t2) e inv =
      let j = rw e at inv.joined in
      elim (waits s t2 (s.threads t2) inv refl j.1) [ inl d ↦ inr (_, join t2 e d) | inr m ↦ inr m ]
  goes_on_or_returned s returned e inv = inl e

-- In every reachable state the two threads are not both between lock and unlock, and no run gets stuck:
-- `main` has returned, or there is a next step.
pub Reach-goes_on :
    (rand : Name → ℕ) (s : System)
    → Reach rand s
    → ((inside (s.threads t1) && inside (s.threads t2)) ≡ false)
      × ((s.main ≡ returned) ⊎ ((s' : System) × Step rand s s'))
unfolding Moves
Reach-goes_on rand s r =
    let inv = Reach-Inv rand r in (inv.apart, goes_on_or_returned rand s s.main refl inv)
