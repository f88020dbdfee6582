-- ===== src/Examples/Circle.antt =====
-- Two ranks around the ring: the second gives its work away, and the ring ends after a second lap.
use native.Mathlib.Decide.{ℕ_discrete}
use libcircle.Prelude.{update, ◌⊎◌, ℕ, zero, suc, ◌<◌, ◌≡◌, refl, true, false, none, Bool, arith}
use libcircle.State.{Color, State}
use libcircle.Token.{
  is_terminate, check_for_term, token_check, token_recv, token_issend, token_color,
}
use libcircle.Token.Ring.{Ring, IsStart, IsPlaced}
use libcircle.Token.Ring.Late.{
  Delayed, Reach, start, later, finish, send, receive, pass, arrive, Reach-stopped,
}
use libcircle.Transfer.{blacken}
use libcircle.Examples.Sample.{idle}

abbrev ranks : ℕ → State
ranks zero = record (idle 0) {
  token = record ((idle 0).token) { is_local = true; src = 1; dest = 1 };
}
ranks (suc i) = record (idle (suc i)) {
  token = record ((idle (suc i)).token) { src = i; dest = 0 };
}

abbrev second : ℕ → Bool
second zero = false
second (suc i) = true

abbrev two : Ring
two = record { rank = ranks; busy = second; flight = none }

two-IsPlaced : (i : ℕ) → i < 2 → IsPlaced 2 i (ranks i)
two-IsPlaced zero lt = record { own = refl; dest = refl; no_abort = refl }
two-IsPlaced (suc zero) lt = record { own = refl; dest = refl; no_abort = refl }
two-IsPlaced (suc (suc i)) lt = absurd (omega arith)

two-running : (i : ℕ) → i < 2 → is_terminate (ranks i).token.proc ≡ false
two-running zero lt = refl
two-running (suc i) lt = refl

two-first : (i : ℕ) → i < 2 → (ranks i).token.is_local ≡ true → i ≡ 0
two-first zero lt e = refl
two-first (suc i) lt e = cc e

two-IsStart : IsStart 2 two
two-IsStart = record {
  placed = two-IsPlaced;
  running = two-running;
  first = two-first;
  holds = λ lt. refl;
  none_flies = refl;
}

-- The second rank gives its work away, and the token comes back black; both ranks have ended their
-- work by then.
abbrev delayed : Delayed
delayed = record { ring = two; coming = λ _. 0; late = false }

abbrev one_lap : (e : Delayed) × Reach 2 delayed e
unfolding ℕ_discrete check_for_term token_check token_recv token_issend token_color blacken
one_lap =
    let given : Reach 2 delayed (record delayed {
      ring = record two { rank = update ranks 1 (blacken (ranks 1) 0) };
      coming = update (λ _. 0) 0 1;
    }) =
      later start (send 1 0 (omega arith) (omega arith) refl) in
    let ended = later (later (later given (receive 0 (omega arith))) (finish 1)) (finish 0) in
    let gone = later ended (pass 0 (omega arith) refl refl refl) in
    let there = later gone (arrive 1 Color.white (omega arith) refl refl refl refl) in
    let back = later there (pass 1 (omega arith) refl refl refl) in
    (_, later back (arrive 0 Color.black (omega arith) refl refl refl refl))

abbrev two_laps : (e : Delayed) × Reach 2 delayed e
unfolding ℕ_discrete check_for_term token_check token_recv token_issend token_color blacken
two_laps =
    let gone = later one_lap.1 (pass 0 (omega arith) refl refl refl) in
    let there = later gone (arrive 1 Color.white (omega arith) refl refl refl refl) in
    let back = later there (pass 1 (omega arith) refl refl refl) in
    (_, later back (arrive 0 Color.white (omega arith) refl refl refl refl))

not_late : two_laps.0.late ≡ false
unfolding ℕ_discrete check_for_term token_check token_recv token_issend token_color blacken
not_late = refl

Reach-stopped_example :
    (two_laps.0.late ≡ true)
    ⊎ ((j : ℕ) → j < 2 → (two_laps.0.ring.busy j ≡ false) × (two_laps.0.coming j ≡ 0))
unfolding ℕ_discrete check_for_term token_check token_recv token_issend token_color blacken
Reach-stopped_example = Reach-stopped 0 two-IsStart two_laps.1 (omega arith) refl
