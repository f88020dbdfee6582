-- ===== src/Abort/Flood.antt =====
-- A node of the tree that enters the abort state tells each of its neighbours once.
use libcircle.Prelude.{
  ℕ, ◌≡◌, inl, inr, refl, ◌∙◌, ap, Bool, true, false, ◌&&◌, none, some, List, [], ◌∷◌, ◌++◌,
  if◌then◌else◌, Bool-cases,
}
use libcircle.C.{Run, ok, ◌>>=◌}
use libcircle.Sends.{Payload}
use libcircle.State.{Tag, Post, State, post}
use libcircle.Abort.Spread.{HasNeighbours, alarms, alarmed, spread_abort-alarmed}
use libcircle.Abort.{spread_abort, abort_start, abort_check, abort_answer, abort_drain}

-- The node in the abort state.
abbrev pub entered : State → State
entered st = record st { abort_flag = true; abort = record (st.abort) { active = true } }

abort_start-again :
    (st : State) (cleanup : Bool)
    → st.abort.active ≡ true
    → abort_start st cleanup ≡ ok (record st { abort_flag = true })
unfolding abort_start
abort_start-again st cleanup a = rw a refl

abort_start-first :
    (st : State) (cleanup : Bool)
    → st.abort.active ≡ false
    → abort_start st cleanup ≡ (if cleanup then ok (entered st) else spread_abort (entered st))
unfolding abort_start
abort_start-first st cleanup a = rw a refl

check-flagged :
    (st st1 : State) (cleanup completed : Bool)
    → st.abort_flag ≡ true
    → abort_start st cleanup ≡ ok st1
    → abort_check st cleanup none completed ≡ ok (abort_drain st1 completed)
unfolding abort_check abort_answer
check-flagged st st1 cleanup completed f e = simp (f, e)

check-unflagged :
    (st : State) (cleanup completed : Bool) (rank : ℕ)
    → st.abort_flag ≡ false
    → abort_check st cleanup (some rank) completed ≡ (
        abort_start (post st rank Tag.abort_reply Payload.empty) cleanup >>= λ st1.
        ok (abort_drain st1 completed))
unfolding abort_check abort_answer
check-unflagged st cleanup completed rank f = rw f refl

check-asked :
    (st st1 : State) (cleanup completed : Bool) (rank : ℕ)
    → st.abort_flag ≡ false
    → abort_start (post st rank Tag.abort_reply Payload.empty) cleanup ≡ ok st1
    → abort_check st cleanup (some rank) completed ≡ ok (abort_drain st1 completed)
check-asked st st1 cleanup completed rank f e =
    check-unflagged st cleanup completed rank f
    ∙ ap (λ r. r >>= λ s. ok (abort_drain s completed)) e

drain_kept :
    (st : State) (completed : Bool)
    → ((abort_drain st completed).posted ≡ st.posted)
      × ((abort_drain st completed).abort_flag ≡ st.abort_flag)
      × ((abort_drain st completed).abort.active ≡ st.abort.active)
unfolding abort_drain
drain_kept st completed = elim (Bool-cases (st.abort.outstanding && completed)) [
  | inl e ↦ rw e (refl, refl, refl)
  | inr e ↦ rw e (refl, refl, refl)
]

-- A node in the abort state: what later checks do.
pub record IsAborting (st : State) : Type 0 where
  pub flagged : st.abort_flag ≡ true
  pub active : st.abort.active ≡ true

-- A check of a node in the abort state.
again-silent :
    (st : State) (cleanup completed : Bool)
    → IsAborting st
    → (st' : State) × (abort_check st cleanup none completed ≡ ok st')
      × (st'.posted ≡ st.posted)
      × IsAborting st'
again-silent st cleanup completed h =
    let st1 = record st { abort_flag = true } in
    let (p, f, a) = drain_kept st1 completed in
    (
      abort_drain st1 completed,
      check-flagged st st1 cleanup completed h.flagged (abort_start-again st cleanup h.active),
      p,
      record { flagged = f; active = a ∙ h.active },
    )

-- Checks that find no request, one after the other, each with its phase and what MPI_Testall answers.
pub checks : List (Bool × Bool) → State → Run State
checks [] st = ok st
checks ((cleanup, completed) ∷ later) st = do
  st' ← abort_check st cleanup none completed
  checks later st'

checks-silent :
    (later : List (Bool × Bool)) (st : State)
    → IsAborting st
    → (st' : State) × (checks later st ≡ ok st') × (st'.posted ≡ st.posted) × IsAborting st'
unfolding checks
checks-silent [] st h = (st, refl, refl, h)
checks-silent ((cleanup, completed) ∷ later) st h =
    let (st1, e, same, h1) = again-silent st cleanup completed h in
    let (st', run, same', h') = checks-silent later st1 h1 in (st', rw e run, same' ∙ same, h')

-- What a node does when it enters the abort state, and after that.
pub record Alarms (st : State) (left : ℕ) (before : List Post) (st' : State) : Type 0 where
  pub told : st'.posted ≡ before ++ alarms st.tree.parent_rank st.tree.children left
  pub aborting : IsAborting st'
  pub silent :
      (later : List (Bool × Bool))
      → (st'' : State) × (checks later st' ≡ ok st'') × (st''.posted ≡ st'.posted) × IsAborting st''

drained-Alarms :
    (st st1 : State) (left : ℕ) (before : List Post) (completed : Bool)
    → st1.posted ≡ before ++ alarms st.tree.parent_rank st.tree.children left
    → IsAborting st1
    → Alarms st left before (abort_drain st1 completed)
drained-Alarms st st1 left before completed told h =
    let (p, f, a) = drain_kept st1 completed in
    let h' : IsAborting (abort_drain st1 completed) = record {
      flagged = f ∙ h.flagged;
      active = a ∙ h.active;
    } in
    record {
      told = p ∙ told;
      aborting = h';
      silent = λ later. checks-silent later (abort_drain st1 completed) h';
    }

-- A node of the tree that is not in the abort state enters it outside the cleanup phase, because
-- its own flag is set: it posts one message to its parent, if it has one, and one to each child, all
-- within the array of requests. Any number of later checks that find no request of another rank,
-- in whatever phase, return, post no more, and leave the node in the abort state.
pub abort_check-Alarms :
    (st : State) (left : ℕ) (completed : Bool)
    → HasNeighbours st left
    → st.abort.active ≡ false
    → st.abort_flag ≡ true
    → (st' : State) × (abort_check st false none completed ≡ ok st') × Alarms st left st.posted st'
abort_check-Alarms st left completed h a f =
    let st1 = alarmed (entered st) st.tree.parent_rank left in
    let run =
      abort_start-first st false a
      ∙ spread_abort-alarmed (entered st) left st.tree.parent_rank refl h.room h.child in
    (
      abort_drain st1 completed,
      check-flagged st st1 false completed f run,
      drained-Alarms st st1 left st.posted completed refl
          (record { flagged = refl; active = refl }),
    )

-- A node whose own flag is not set and which another rank asks to abort: the rank is sent one reply
-- before the messages to the neighbours.
abort_check-asked :
    (st : State) (left rank : ℕ) (completed : Bool)
    → HasNeighbours st left
    → st.abort.active ≡ false
    → st.abort_flag ≡ false
    → (st' : State) × (abort_check st false (some rank) completed ≡ ok st')
      × Alarms st left
          (st.posted
            ++ (record { dest = rank; tag = Tag.abort_reply; payload = Payload.empty } ∷ []))
          st'
abort_check-asked st left rank completed h a f =
    let replied = post st rank Tag.abort_reply Payload.empty in
    let st1 = alarmed (entered replied) st.tree.parent_rank left in
    let run =
      abort_start-first replied false a
      ∙ spread_abort-alarmed (entered replied) left st.tree.parent_rank refl h.room h.child in
    (
      abort_drain st1 completed,
      check-asked st st1 false completed rank f run,
      drained-Alarms st st1 left replied.posted completed refl
          (record { flagged = refl; active = refl }),
    )
