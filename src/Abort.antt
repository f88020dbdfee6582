-- ===== src/Abort.antt =====
-- The broadcast of an abort and the reduction of the abort flags in libcircle/token.c:
-- CIRCLE_bcast_abort, CIRCLE_abort_start, CIRCLE_abort_check and CIRCLE_abort_reduce. What the
-- probes, tests and blocking receives answer are parameters.
pub mod Alarm
pub mod Conclude
pub mod Flood
pub mod Keeps
pub mod Rest
pub mod Spread
pub mod Sweep
use libcircle.Prelude.{
  ℕ, zero, suc, ◌+◌, ◌*◌, Bool, true, false, ◌&&◌, ◌||◌, not, Option, none, some, List, [], ◌∷◌,
  leb, ltb, ◌==◌, if◌then◌else◌, is_none, get_elem?, ℤ, pos,
}
use libcircle.C.{Run, ok, ◌>>=◌, ◌>>◌, require, deref}
use libcircle.Sends.{Payload}
use libcircle.State.{Tag, AbortState, State, post}
use libcircle.Tree.{Tree}
use libcircle.Collective.{send_to, send_down, int_of}

-- The global abort flag is set; the next round of the worker sees it.
unfoldable pub bcast_abort : State → State
bcast_abort st = record st { abort_flag = true }

-- The two requests to one neighbour, from the cell `k` of `abort_req` on: a receive for its reply,
-- and the message.
unfoldable pub request_abort : State → (k : ℕ) → (rank : Option ℕ) → Run (State × ℕ)
request_abort st k rank = do
  require (leb (k + 2) st.abort.num_req)
  ok (send_to st rank Tag.abort_request Payload.empty, k + 2)

-- The requests to the children, with `n` rounds left.
unfoldable pub request_children : (n i : ℕ) → State → (k : ℕ) → Run (State × ℕ)
request_children zero i st k = ok (st, k)
request_children (suc n) i st k = do
  child ← deref (get_elem? st.tree.child_ranks i)
  (st', k') ← request_abort st k child
  request_children n (i + 1) st' k'

unfoldable pub request_parent : State → Run (State × ℕ)
request_parent st =
    if is_none st.tree.parent_rank then ok (st, 0) else request_abort st 0 st.tree.parent_rank

-- The abort messages to the parent and to the children.
unfoldable pub spread_abort : State → Run State
spread_abort st = do
  (st1, k1) ← request_parent st
  (st2, k) ← request_children st1.tree.children 0 st1 k1
  ok (if ltb 0 k then record st2 { abort = record (st2.abort) { outstanding = true } } else st2)

unfoldable pub abort_start : State → (cleanup : Bool) → Run State
abort_start st cleanup =
    let entered = record st { abort_flag = true; abort = record (st.abort) { active = true } } in
    if st.abort.active
    then ok (record st { abort_flag = true })
    else if cleanup
    then ok entered
    else spread_abort entered

-- `completed` is what MPI_Testall answers.
unfoldable pub abort_drain : State → (completed : Bool) → State
abort_drain st completed =
    if st.abort.outstanding && completed
    then record st { abort = record (st.abort) { outstanding = false } }
    else st

-- The answer to a request to abort from `rank`.
unfoldable pub abort_answer : State → (cleanup : Bool) → (request : Option ℕ) → Run State
abort_answer st cleanup none = ok st
abort_answer st cleanup (some rank) =
    abort_start (post st rank Tag.abort_reply Payload.empty) cleanup

-- `request` is the rank whose request the probe finds.
unfoldable pub abort_check :
    State → (cleanup : Bool) → (request : Option ℕ) → (completed : Bool) → Run State
abort_check st cleanup request completed = do
  st1 ← if st.abort_flag then abort_start st cleanup else ok st
  st2 ← abort_answer st1 cleanup request
  ok (abort_drain st2 completed)

-- `flag |= child_flag` for each child, in order.
pub disjunction : Bool → List Bool → Bool
disjunction f [] = f
disjunction f (g ∷ flags) = disjunction (f || g) flags

-- The flag that a node sends up, and the flag that it sends down: `answer` is what the parent sends.
pub abort_up : State → (flags : List Bool) → Bool
abort_up st flags = disjunction st.abort_flag flags

pub abort_result : State → (flags : List Bool) → (answer : Bool) → Bool
abort_result st flags answer = if is_none st.tree.parent_rank then abort_up st flags else answer

-- The result goes to the children, and the flags of this rank are set.
pub abort_forward : State → (result : Bool) → Run State
abort_forward st result = do
  st' ← send_down Tag.abort_reduce (Payload.ints (int_of result ∷ [])) st.tree.children 0 st
  ok (record st' { abort_flag = result; abort = record (st'.abort) { active = result } })

-- `flags` is the messages of the children, in order; there must be one for each.
pub abort_reduce : State → (flags : List Bool) → (answer : Bool) → Run State
abort_reduce st flags answer =
    let up = Payload.ints (int_of (abort_up st flags) ∷ []) in
    abort_forward (send_to st st.tree.parent_rank Tag.abort_reduce up)
      (abort_result st flags answer)
