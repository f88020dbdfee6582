-- ===== src/Collective.antt =====
-- The collective operations of libcircle/token.c on the tree of ranks: CIRCLE_barrier_start,
-- CIRCLE_barrier_test and CIRCLE_check_for_term_allreduce. What the probes find is a parameter.
pub mod Agree
pub mod Barrier
pub mod Down
pub mod Flow
pub mod Keeps
pub mod Net
pub mod Reduce
pub mod Rest
pub mod Wire
use libcircle.Prelude.{
  ℕ, zero, suc, ◌+◌, Bool, true, false, ◌&&◌, ◌||◌, not, Option, none, some, List, [], ◌∷◌, ltb,
  ◌==◌, if◌then◌else◌, is_none, get_elem?, ℤ, pos,
}
use libcircle.C.{Run, ok, ◌>>=◌, deref}
use libcircle.Sends.{Payload}
use libcircle.State.{Tag, Color, BarrierState, TermState, State, post}
use libcircle.Tree.{Tree}

-- MPI_Send to a rank; one to MPI_PROC_NULL has no effect.
abbrev pub send_to : State → Option ℕ → Tag → Payload → State
send_to st none tag payload = st
send_to st (some rank) tag payload = post st rank tag payload

-- `for(i = 0; i < children; i++)` with `n` rounds left: a message to each child.
unfoldable pub send_down : Tag → Payload → (n i : ℕ) → State → Run State
send_down tag payload zero i st = ok st
send_down tag payload (suc n) i st = do
  child ← deref (get_elem? st.tree.child_ranks i)
  send_down tag payload n (i + 1) (send_to st child tag payload)

pub barrier_start : State → State
barrier_start st = record st { barrier = record (st.barrier) { started = true } }

-- A message from a child is counted, as long as some are missing.
pub count_child : State → (arrived : Bool) → State
count_child st arrived =
    if ltb st.barrier.replies st.tree.children && arrived
    then record st { barrier = record (st.barrier) { replies = st.barrier.replies + 1 } }
    else st

-- When all children have come the parent is told.
pub barrier_up : State → State
barrier_up st =
    if not st.barrier.up && (st.barrier.replies == st.tree.children)
    then record (send_to st st.tree.parent_rank Tag.barrier Payload.empty) {
      barrier = record (st.barrier) { up = true };
    }
    else st

-- The children are released, and the node is ready for another barrier.
pub barrier_finish : State → Run (State × Bool)
barrier_finish st = do
  st' ← send_down Tag.barrier Payload.empty st.tree.children 0 st
  ok (record st' { barrier = record { started = false; up = false; replies = 0 } }, true)

-- `arrived` says that the probe for a child's message finds one, `released` that the parent's
-- message is there.
pub barrier_test : State → (arrived released : Bool) → Run (State × Bool)
barrier_test st arrived released =
    let st1 = barrier_up (count_child st arrived) in
    if not st.barrier.started
    then ok (st, false)
    else if st1.barrier.up && (is_none st1.tree.parent_rank || released)
    then barrier_finish st1
    else ok (st1, false)

abbrev pub int_of : Bool → ℤ
int_of true = pos 1
int_of false = pos 0

-- `arrived` is the flags of the messages from children that the probes find, in order.
unfoldable pub gather : State → (arrived : List Bool) → State
gather st [] = st
gather st (f ∷ arrived) =
    let next = record st {
      term = record (st.term) { flag = st.term.flag && f; replies = st.term.replies + 1 };
    } in
    if ltb st.term.replies st.tree.children then gather next arrived else st

-- The message to the parent, and the flag of the root.
unfoldable pub term_up : State → State × Bool
term_up st =
    if not st.term.up && (st.term.replies == st.tree.children)
    then (
      record (send_to st st.tree.parent_rank Tag.term (Payload.ints (int_of st.term.flag ∷ []))) {
        term = record (st.term) { flag = true; up = true };
      },
      if is_none st.tree.parent_rank then st.term.flag else false,
    )
    else (st, false)

-- The result goes down to the children.
unfoldable pub term_down : State → (result : Bool) → Run (State × Color)
term_down st result = do
  st' ← send_down Tag.term (Payload.ints (int_of result ∷ [])) st.tree.children 0 st
  ok (
    record st' { term = record (st'.term) { up = false; replies = 0 } },
    if result then Color.terminate else Color.white,
  )

-- The result goes down where the parent's message is there.
unfoldable pub await : State → (released : Option Bool) → Run (State × Color)
await st none = ok (st, Color.white)
await st (some result) = term_down st result

-- `released` is the flag of the parent's message where it is there.
unfoldable pub check_for_term_allreduce :
    State → (arrived : List Bool) → (released : Option Bool) → Run (State × Color)
check_for_term_allreduce st arrived released =
    let st1 = gather st arrived in
    let (st2, root_flag) = term_up st1 in
    if ltb 0 st1.work_outstanding
    then ok (st1, Color.white)
    else if not st2.term.up
    then ok (st2, Color.white)
    else if is_none st2.tree.parent_rank
    then term_down st2 root_flag
    else await st2 released
