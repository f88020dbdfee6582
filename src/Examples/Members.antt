-- ===== src/Examples/Members.antt =====
-- Two ranks that CIRCLE_init_local_state sets up.
use libcircle.Prelude.{ℕ, zero, suc, ◌<◌, ◌≡◌, refl, List, [], ◌∷◌, arith, Bool, ◌==◌}
use libcircle.C.{ok}
use libcircle.State.{State}
use libcircle.Request.Ask.{Hits, here}
use libcircle.Worker.{init_local_state}
use libcircle.Worker.Ready.{ring_of, flow_of, alarm_of, init_local_state-IsStart}
use libcircle.Worker.Setup.{IsReady, init_local_state-IsReady}
use libcircle.Examples.Sample.{machine, two_items, idle}
use libcircle.Examples.Workers.{take_one, program}

-- Two ranks are set up; the first has the work.
abbrev draws_of : ℕ → List ℕ
draws_of zero = 1 ∷ []
draws_of (suc i) = 0 ∷ []

abbrev ready :
    (i : ℕ)
    → i < 2
    → Hits i 2 (draws_of i)
    → (st : State) × (init_local_state machine
          (program take_one)
          two_items
          i
          2
          (draws_of i)
          (idle 0)
        ≡ ok st)
      × IsReady i 2 64 st
ready i lt h =
    init_local_state-IsReady machine (program take_one) two_items i 2 (draws_of i) (idle 0)
      (omega arith) lt (omega (arith, lt)) (omega arith) (omega arith) (omega (arith, lt)) refl h
      refl

first-Hits : Hits 0 2 (1 ∷ [])
first-Hits = here (λ e. omega (arith, e))

second-Hits : Hits 1 2 (0 ∷ [])
second-Hits = here (λ e. omega (arith, e))

abbrev set_up : ℕ → State
set_up zero = (ready 0 (omega arith) first-Hits).0
set_up (suc i) = (ready 1 (omega arith) second-Hits).0

both_hit : (i : ℕ) → i < 2 → Hits i 2 (draws_of i)
both_hit zero lt = first-Hits
both_hit (suc zero) lt = second-Hits
both_hit (suc (suc i)) lt = absurd (omega arith)

set_up-runs :
    (i : ℕ)
    → i < 2
    → init_local_state machine (program take_one) two_items i 2 (draws_of i) (idle 0)
      ≡ ok (set_up i)
set_up-runs zero lt = (ready 0 (omega arith) first-Hits).1
set_up-runs (suc zero) lt = (ready 1 (omega arith) second-Hits).1
set_up-runs (suc (suc i)) lt = absurd (omega arith)

abbrev first_has : ℕ → Bool
first_has i = i == 0

init_local_state-IsStart_example :
    libcircle.Token.Ring.IsStart 2 (ring_of set_up first_has)
    × libcircle.Collective.Flow.IsStart 2 64 (flow_of set_up first_has)
    × libcircle.Abort.Alarm.IsStart 2 64 (alarm_of set_up)
init_local_state-IsStart_example =
    init_local_state-IsStart machine (program take_one) 2 (λ i. two_items) draws_of (λ i. idle 0)
      set_up first_has (omega arith) (omega arith) (omega arith) (omega arith) refl
      (λ i lt. omega arith) both_hit (λ i lt. refl) set_up-runs
