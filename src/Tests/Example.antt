-- ===== src/Tests/Example.antt =====
-- The theorems on the thread example at one run, in which the second thread prints first.
use net_working_mini_net.Base.{ℕ, ◌≡◌, ◌⊎◌, refl, false, ◌&&◌, [], ◌∷◌}
use net_working_mini_net.ThreadExample.{
  Name, t1, t2, returned, System, set_thread, arg, Step, create, wake, lock, print, unlock, join,
  Reach, start, later,
}
use net_working_mini_net.ThreadExample.Output.{inside, Reach-output}
use net_working_mini_net.ThreadExample.Progress.{Reach-goes_on}

abbrev rand : Name → ℕ
rand t = 7

-- Both threads are created, and the second has printed and ended.
one_ended : (s : System) × Reach rand s
unfolding set_thread
one_ended =
    let r₁ = later (later start (create t1 refl)) (create t2 refl) in
    let r₂ =
      later (later (later (later r₁ (wake t2 refl)) (lock t2 refl refl)) (print t2 refl))
        (unlock t2 refl) in
    (_, r₂)

all_ended : (s : System) × Reach rand s × (s.main ≡ returned)
unfolding set_thread one_ended
all_ended =
    let r₃ =
      later (later (later (later one_ended.1 (wake t1 refl)) (lock t1 refl refl)) (print t1 refl))
        (unlock t1 refl) in
    (_, later (later r₃ (join t1 refl refl)) (join t2 refl refl), refl)

Reach-output_example :
    (all_ended.0.output ≡ arg rand t1 ∷ arg rand t2 ∷ [])
    ⊎ (all_ended.0.output ≡ arg rand t2 ∷ arg rand t1 ∷ [])
Reach-output_example = Reach-output rand all_ended.0 all_ended.1 all_ended.2

Reach-goes_on_example :
    ((inside (one_ended.0.threads t1) && inside (one_ended.0.threads t2)) ≡ false)
    × ((one_ended.0.main ≡ returned) ⊎ ((s' : System) × Step rand one_ended.0 s'))
Reach-goes_on_example = Reach-goes_on rand one_ended.0 one_ended.1
