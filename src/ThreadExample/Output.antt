-- ===== src/ThreadExample/Output.antt =====
-- What the two threads print, and the invariant of all runs.
use net_working_mini_net.Base.{
  ℕ, ◌≡◌, ◌≢◌, ◌⊎◌, refl, ap, inl, inr, Bool, true, false, ◌||◌, ◌&&◌, List, [], ◌∷◌, ◌++◌, arith,
}
use net_working_mini_net.ThreadExample.{
  Name, t1, t2, Thread, idle, asleep, awake, locked, printed, ended, Main, creating, joining,
  returned, ThreadArg, System, set_thread, arg, Step, create, wake, lock, print, unlock, join,
  Reach, start, later,
}

abbrev pub has_printed : Thread → Bool
has_printed idle = false
has_printed asleep = false
has_printed awake = false
has_printed locked = false
has_printed printed = true
has_printed ended = true

-- Between the lock and the unlock.
abbrev pub inside : Thread → Bool
inside idle = false
inside asleep = false
inside awake = false
inside locked = true
inside printed = true
inside ended = false

module _ (rand : Name → ℕ) where
  -- The output by which threads have printed.
  abbrev pub Shows : (first second : Bool) → List ThreadArg → Type 0
  Shows false false out = out ≡ []
  Shows true false out = out ≡ arg rand t1 ∷ []
  Shows false true out = out ≡ arg rand t2 ∷ []
  Shows true true out =
      (out ≡ arg rand t1 ∷ arg rand t2 ∷ []) ⊎ (out ≡ arg rand t2 ∷ arg rand t1 ∷ [])

  -- What `main` has waited for.
  abbrev pub Joined : Main → (first second : Thread) → Type 0
  Joined (creating t1) a b = (a ≡ idle) × (b ≡ idle)
  Joined (creating t2) a b = (a ≢ idle) × (b ≡ idle)
  Joined (joining t1) a b = (a ≢ idle) × (b ≢ idle)
  Joined (joining t2) a b = (a ≡ ended) × (b ≢ idle)
  Joined returned a b = (a ≡ ended) × (b ≡ ended)

  pub record Inv (s : System) : Type 0 where
    pub shows : Shows (has_printed (s.threads t1)) (has_printed (s.threads t2)) s.output
    pub held : s.output_lock ≡ (inside (s.threads t1) || inside (s.threads t2))
    pub apart : (inside (s.threads t1) && inside (s.threads t2)) ≡ false
    pub joined : Joined s.main (s.threads t1) (s.threads t2)

  -- `main` waits for no more when a thread that runs moves on.
  moves_t1 :
      (m : Main) (a a' b : Thread) → a ≢ idle → a ≢ ended → a' ≢ idle → Joined m a b → Joined m a' b
  moves_t1 (creating t1) a a' b n e n' j = absurd (n j.0)
  moves_t1 (creating t2) a a' b n e n' j = (n', j.1)
  moves_t1 (joining t1) a a' b n e n' j = (n', j.1)
  moves_t1 (joining t2) a a' b n e n' j = absurd (e j.0)
  moves_t1 returned a a' b n e n' j = absurd (e j.0)

  moves_t2 :
      (m : Main) (a b b' : Thread) → b ≢ idle → b ≢ ended → b' ≢ idle → Joined m a b → Joined m a b'
  moves_t2 (creating t1) a b b' n e n' j = absurd (n j.1)
  moves_t2 (creating t2) a b b' n e n' j = absurd (n j.1)
  moves_t2 (joining t1) a b b' n e n' j = (j.0, n')
  moves_t2 (joining t2) a b b' n e n' j = (j.0, n')
  moves_t2 returned a b b' n e n' j = absurd (e j.1)

  prints_t1 :
      (b : Bool) (out : List ThreadArg) → Shows false b out → Shows true b (out ++ arg rand t1 ∷ [])
  prints_t1 false out h = ap (λ l. l ++ arg rand t1 ∷ []) h
  prints_t1 true out h = inr (ap (λ l. l ++ arg rand t1 ∷ []) h)

  prints_t2 :
      (a : Bool) (out : List ThreadArg) → Shows a false out → Shows a true (out ++ arg rand t2 ∷ [])
  prints_t2 false out h = ap (λ l. l ++ arg rand t2 ∷ []) h
  prints_t2 true out h = inl (ap (λ l. l ++ arg rand t2 ∷ []) h)

  Step-Inv : {s s' : System} → Step rand s s' → Inv s → Inv s'
  unfolding set_thread
  Step-Inv {s} (create t1 e) inv =
      let j = rw e at inv.joined in
      record {
        shows = rw (j.0) at inv.shows;
        held = rw (j.0) at inv.held;
        apart = refl;
        joined = (ground arith, j.1);
      }
  Step-Inv {s} (create t2 e) inv =
      let j = rw e at inv.joined in
      record {
        shows = rw (j.1) at inv.shows;
        held = rw (j.1) at inv.held;
        apart = rw (j.1) at inv.apart;
        joined = (j.0, ground arith);
      }
  Step-Inv {s} (wake t1 e) inv = record {
    shows = rw e at inv.shows;
    held = rw e at inv.held;
    apart = refl;
    joined =
        moves_t1 s.main (s.threads t1) awake (s.threads t2) (ground arith) (ground arith)
          (ground arith) inv.joined;
  }
  Step-Inv {s} (wake t2 e) inv = record {
    shows = rw e at inv.shows;
    held = rw e at inv.held;
    apart = rw e at inv.apart;
    joined =
        moves_t2 s.main (s.threads t1) (s.threads t2) awake (ground arith) (ground arith)
          (ground arith) inv.joined;
  }
  Step-Inv {s} (lock t1 e free) inv = record {
    shows = rw e at inv.shows;
    held = refl;
    apart = let h = rw e at inv.held in ground arith;
    joined =
        moves_t1 s.main (s.threads t1) locked (s.threads t2) (ground arith) (ground arith)
          (ground arith) inv.joined;
  }
  Step-Inv {s} (lock t2 e free) inv = record {
    shows = rw e at inv.shows;
    held = let h = rw e at inv.held in ground arith;
    apart = let h = rw e at inv.held in ground arith;
    joined =
        moves_t2 s.main (s.threads t1) (s.threads t2) locked (ground arith) (ground arith)
          (ground arith) inv.joined;
  }
  Step-Inv {s} (print t1 e) inv = record {
    shows = prints_t1 (has_printed (s.threads t2)) s.output (rw e at inv.shows);
    held = rw e at inv.held;
    apart = rw e at inv.apart;
    joined =
        moves_t1 s.main (s.threads t1) printed (s.threads t2) (ground arith) (ground arith)
          (ground arith) inv.joined;
  }
  Step-Inv {s} (print t2 e) inv = record {
    shows = prints_t2 (has_printed (s.threads t1)) s.output (rw e at inv.shows);
    held = rw e at inv.held;
    apart = rw e at inv.apart;
    joined =
        moves_t2 s.main (s.threads t1) (s.threads t2) printed (ground arith) (ground arith)
          (ground arith) inv.joined;
  }
  Step-Inv {s} (unlock t1 e) inv = record {
    shows = rw e at inv.shows;
    held = let h = rw e at inv.apart in ground arith;
    apart = refl;
    joined =
        moves_t1 s.main (s.threads t1) ended (s.threads t2) (ground arith) (ground arith)
          (ground arith) inv.joined;
  }
  Step-Inv {s} (unlock t2 e) inv = record {
    shows = rw e at inv.shows;
    held = let h = rw e at inv.apart in ground arith;
    apart = let h = rw e at inv.apart in ground arith;
    joined =
        moves_t2 s.main (s.threads t1) (s.threads t2) ended (ground arith) (ground arith)
          (ground arith) inv.joined;
  }
  Step-Inv {s} (join t1 e d) inv =
      let j = rw e at inv.joined in
      record { shows = inv.shows; held = inv.held; apart = inv.apart; joined = (d, j.1) }
  Step-Inv {s} (join t2 e d) inv =
      let j = rw e at inv.joined in
      record { shows = inv.shows; held = inv.held; apart = inv.apart; joined = (j.0, d) }

  pub Reach-Inv : {s : System} → Reach rand s → Inv s
  Reach-Inv start = record { shows = refl; held = refl; apart = refl; joined = (refl, refl) }
  Reach-Inv (later r st) = Step-Inv st (Reach-Inv r)

-- Once `main` has returned, the output is the line of each thread once, in one order or the other.
pub Reach-output :
    (rand : Name → ℕ) (s : System)
    → Reach rand s
    → s.main ≡ returned
    → (s.output ≡ arg rand t1 ∷ arg rand t2 ∷ []) ⊎ (s.output ≡ arg rand t2 ∷ arg rand t1 ∷ [])
Reach-output rand s r e =
    let inv = Reach-Inv rand r in let j = rw e at inv.joined in rw (j.0, j.1) at inv.shows
