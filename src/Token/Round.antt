-- ===== src/Token/Round.antt =====
-- Rounds of the token from the first rank around the ring and back: they come to an end.
use libcircle.Prelude.{
  ℕ, suc, ◌+◌, ◌-◌, ◌<◌, ◌≡◌, refl, ◌∙◌, ap, true, false, Option, none, some, List, [], ◌∷◌, All,
  Bool-cases, inl, inr, ◌⊎◌, arith, length, lt→ltb, if◌then◌else◌,
}
use libcircle.State.{Color, State}
use libcircle.Token.{
  is_terminate, token_issend, token_recv, token_check, token_color, check_for_term,
}
use libcircle.Token.Lap.{
  lap, IsIdle, any_black, lap-gathers, passed_on, received, check-pass, darker, darker-running,
  visit-runs,
}

-- The first rank, idle and with the token.
pub record IsMaster (st : State) : Type 0 where
  pub first : st.rank ≡ 0
  pub running : is_terminate st.token.proc ≡ false
  pub holds : st.token.is_local ≡ true
  pub no_abort : st.abort_flag ≡ false

-- The first rank sends a token around the others, which come back in new states.
pub start : State → State
start st = (check_for_term st none).0

-- The first rank sends the token, and gets it back after a lap. The result is its state, what its
-- check returns, and the states of the others.
pub round : State → List State → State × Color × List State
round st states =
    let (states', c) = lap states (start st).token.buf in
    let (st', answer) = check_for_term (start st) (some c) in (st', answer, states')

master_color : (st : State) → st.rank ≡ 0 → token_color st ≡ Color.white
unfolding token_color
master_color st e = rw e refl

start-runs : (st : State) → IsMaster st → start st ≡ passed_on st Color.white
unfolding start
start-runs st h =
    check-pass st h.running h.holds h.no_abort ∙ ap (passed_on st) (master_color st h.first)

-- The first rank stops at a white token, and keeps a black one.
master_stops :
    (st : State)
    → IsMaster st
    → (check_for_term (passed_on st Color.white) (some Color.white)).1 ≡ Color.terminate
unfolding check_for_term token_check token_recv token_issend
master_stops st h = rw h.first refl

master_keeps :
    (st : State)
    → IsMaster st
    → check_for_term (passed_on st Color.white) (some Color.black)
      ≡ (received (passed_on st Color.white) Color.black, Color.white)
unfolding check_for_term token_check token_recv
master_keeps st h = rw h.first refl

round-runs :
    (st : State) (states : List State)
    → IsMaster st
    → round st states ≡ (
        let (states', c) = lap states Color.white in
        let (st', answer) = check_for_term (passed_on st Color.white) (some c) in
        (st', answer, states'))
unfolding round
round-runs st states h = rw (start-runs st h) refl

round-black :
    (st : State) (states : List State)
    → IsMaster st
    → All IsIdle states
    → any_black states ≡ true
    → round st states
      ≡ (received (passed_on st Color.white) Color.black, Color.white, (lap states Color.white).0)
round-black st states h all some_ =
    let e : (lap states Color.white).1 ≡ Color.black =
      (lap-gathers states Color.white all refl).0 ∙ rw some_ refl in
    rw (round-runs st states h, e, master_keeps st h) refl

-- The token that a rank has sent on.
pub sent_on : State → Option Color
sent_on st = if st.token.sending then some st.token.buf else none

-- The ranks in order call the check, each with the token that the one before it has sent, if it has
-- sent one. The result is what the calls return.
pub answers : Option Color → List State → List Color
answers token [] = []
answers token (st ∷ states) =
    let (st', color) = check_for_term st token in color ∷ answers (sent_on st') states

-- The ranks from `i` on up to the last.
unfoldable pub InOrder : (i size : ℕ) → List State → Type 0
InOrder i size [] = i ≡ size
InOrder i size (st ∷ states) = (st.rank ≡ i) × (st.size ≡ size) × InOrder (i + 1) size states

InOrder-lt :
    (i size : ℕ) (st : State) (states : List State) → InOrder i size (st ∷ states) → i < size
unfolding InOrder
InOrder-lt i size st [] h = omega (arith, h.2)
InOrder-lt i size st (next ∷ states) h = omega (arith, InOrder-lt (i + 1) size next states h.2)

lap-InOrder :
    (states : List State) (token : Color) (i size : ℕ)
    → All IsIdle states
    → is_terminate token ≡ false
    → InOrder i size states
    → InOrder i size (lap states token).0
unfolding lap InOrder
lap-InOrder [] token i size all t h = h
lap-InOrder (st ∷ states) token i size all t h =
    let c = darker st.token.proc token in
    rw (visit-runs st token all.0 t)
      (h.0, h.1, lap-InOrder states c (i + 1) size all.1 (darker-running st.token.proc token) h.2)

-- A rank that the terminating token reaches stops, and sends it on if it is not the last.
idle_stops :
    (st : State) → IsIdle st → (check_for_term st (some Color.terminate)).1 ≡ Color.terminate
unfolding check_for_term token_check token_recv token_issend
idle_stops st h = rw (h.running, h.waiting, h.no_abort) (ground arith)

idle_sends :
    (st : State)
    → IsIdle st
    → st.rank + 1 < st.size
    → sent_on (check_for_term st (some Color.terminate)).0 ≡ some Color.terminate
unfolding check_for_term token_check token_recv token_issend sent_on
idle_sends st h lt =
    rw (h.running, h.waiting, h.no_abort, lt→ltb st.rank (st.size - 1) (omega arith)) (ground arith)

answers-stop :
    (states : List State) (token : Option Color) (i size : ℕ)
    → (i < size → token ≡ some Color.terminate)
    → All IsIdle states
    → InOrder i size states
    → (length (answers token states) ≡ length states)
      × All (λ c. c ≡ Color.terminate) (answers token states)
unfolding answers InOrder
answers-stop [] token i size e all h = (refl, tt)
answers-stop (st ∷ states) token i size e all h =
    let came = e (InOrder-lt i size st states h) in
    let (n, rest) =
      answers-stop states (sent_on (check_for_term st (some Color.terminate)).0) (i + 1) size
        (λ lt. idle_sends st all.0 (omega (arith, h.0, h.1))) all.1 h.2 in
    rw came (ap suc n, (idle_stops st all.0, rest))

master_sends :
    (st : State)
    → IsMaster st
    → 1 < st.size
    → sent_on (check_for_term (passed_on st Color.white) (some Color.white)).0
      ≡ some Color.terminate
unfolding check_for_term token_check token_recv token_issend sent_on
master_sends st h lt =
    let few : 0 < st.size - 1 = omega arith in
    rw (h.first, h.no_abort, lt→ltb 0 (st.size - 1) few) (ground arith)

-- What a round ends with where all ranks stop: the first, and then all others, by the tokens that
-- each sends to the next.
pub record AllStop (r : State × Color × List State) : Type 0 where
  pub first_stops : r.1 ≡ Color.terminate
  pub all : length (answers (sent_on r.0) r.2) ≡ length r.2
  pub others : All (λ c. c ≡ Color.terminate) (answers (sent_on r.0) r.2)

round-AllStop :
    (st : State) (states : List State)
    → IsMaster st
    → All IsIdle states
    → InOrder 1 st.size states
    → any_black states ≡ false
    → AllStop (round st states)
round-AllStop st states h all order none_ =
    let (e', idle, _) = lap-gathers states Color.white all refl in
    let e : (lap states Color.white).1 ≡ Color.white = e' ∙ rw none_ refl in
    let (n, others) =
      answers-stop (lap states Color.white).0
        (sent_on (check_for_term (passed_on st Color.white) (some Color.white)).0) 1 st.size
        (master_sends st h) idle (lap-InOrder states Color.white 1 st.size all refl order) in
    rw (round-runs st states h, e)
      (record { first_stops = master_stops st h; all = n; others = others })

-- Where the first rank is idle with the token, the others are idle without it, they have the ranks
-- from 1 on, none has been told to stop or to abort, and no work moves, the whole ring stops within
-- two rounds of its token. If all ranks but the first are white the first round ends with TERMINATE;
-- otherwise it ends with white, and the round after it ends with TERMINATE. All ranks stop then: the
-- check of the first returns TERMINATE, and so does that of each other, which gets the token that the
-- rank before it has sent.
pub round-terminates :
    (st : State) (states : List State)
    → IsMaster st
    → All IsIdle states
    → InOrder 1 st.size states
    → ((any_black states ≡ false) × AllStop (round st states))
      ⊎ ((any_black states ≡ true)
          × ((round st states).1 ≡ Color.white)
          × AllStop (round (round st states).0 (round st states).2))
round-terminates st states h all order = elim (Bool-cases (any_black states)) [
  | inr none_ ↦ inl (none_, round-AllStop st states h all order none_)
  | inl some_ ↦
      let e = round-black st states h all some_ in
      let (_, idle, clean) = lap-gathers states Color.white all refl in
      let again = received (passed_on st Color.white) Color.black in
      let m : IsMaster again = record {
        first = h.first;
        running = refl;
        holds = refl;
        no_abort = h.no_abort;
      } in
      inr (
        some_,
        rw e refl,
        rw e (
            round-AllStop again (lap states Color.white).0 m idle
              (lap-InOrder states Color.white 1 st.size all refl order) clean),
      )
]
