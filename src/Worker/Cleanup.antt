-- ===== src/Worker/Cleanup.antt =====
-- libcircle/worker.c: the second loop of CIRCLE_work_loop, which drains messages until a barrier is
-- complete, what follows it, CIRCLE_worker, and CIRCLE_MPI_error_handler.
use libcircle.Prelude.{
  ℤ, ℕ, Bool, true, false, ◌&&◌, ◌||◌, not, Option, none, List, [], ◌∷◌, ◌++◌, ◌==◌, if◌then◌else◌,
  length,
}
use libcircle.C.{Run, ok, out_of_fuel, ◌>>=◌, deref, Os}
use libcircle.Queue.{Queue}
use libcircle.Sends.{wait}
use libcircle.State.{State}
use libcircle.Input.{Input, create_global, has_option}
use libcircle.Token.{token_check}
use libcircle.Collective.{barrier_start, barrier_test}
use libcircle.Abort.{bcast_abort, abort_reduce}
use libcircle.Reduction.{Reply, reduce_sync}
use libcircle.Checkpoint.{Disk, checkpoint}
use libcircle.Worker.{
  Round, Work, callbacks, deliveries, progress, serve, fetch, watch, work_rounds, init_local_state,
  finalize_local_state,
}

-- This rank has nothing outstanding.
unfoldable pub is_settled : State → Bool
is_settled st =
    not st.work_requested
    && not st.reduce.outstanding
    && not st.abort.outstanding
    && (length st.sends.slots == 0)
    && not st.request_pending
    && not st.token.sending

-- The token is received, and its request tested, where the ring is in use.
unfoldable pub drain_token : Round → State → State
drain_token r st =
    let st1 = token_check st r.token in
    let st2 = record st1 {
      token = record (st1.token) { sending = st1.token.sending && not r.token_tested };
    } in
    if st.term_tree_enabled then st else st2

-- The rest of a round of the second loop, when the barrier is not complete.
unfoldable pub clean_up : Os → (req_size : ℕ) → Input → Round → Work → Run Work
clean_up os req_size input r w = do
  w1 ← serve os req_size input true r w
  w2 ← progress os input true r w1
  w3 ← fetch os req_size true r w2
  w4 ← watch true r w3
  ok (record w4 { state = drain_token r w4.state })

-- One round of the second loop of CIRCLE_work_loop.
unfoldable pub cleanup_round : Os → (req_size : ℕ) → Input → Round → Work → Run (Work × Bool)
cleanup_round os req_size input r w = do
  let st = if is_settled w.state then barrier_start w.state else w.state
  (st', passed) ← barrier_test st r.arrived r.released
  let w1 = record w { state = st' }
  elim passed [
    | true ↦ ok (w1, true)
    | false ↦ clean_up os req_size input r w1 >>= λ w2. ok (w2, false)
  ]

unfoldable pub cleanup_rounds : Os → (req_size : ℕ) → Input → List Round → Work → Run Work
cleanup_rounds os req_size input [] w = out_of_fuel
cleanup_rounds os req_size input (r ∷ rounds) w = do
  (w', ends) ← cleanup_round os req_size input r w
  elim ends [ true ↦ ok w' | false ↦ cleanup_rounds os req_size input rounds w' ]

-- The messages of the reductions at the end: those of the children, and the parent's answer.
pub record Last : Type 0 where
  pub replies : List Reply
  pub flags : List Bool
  pub answer : Bool

-- What follows the two loops.
unfoldable pub settle : Os → Input → Last → Work → Run Work
settle os input last w = do
  let st = record (w.state) { sends = (wait w.state.sends).0; request_pending = false }
  let summed = reduce_sync os (callbacks input) st st.local_objects_processed last.replies
  (st', delivery) ← if st.reduce.enabled then summed else ok (st, none)
  st'' ← abort_reduce st' last.flags last.answer
  ok (record w { state = st''; delivered = w.delivered ++ deliveries delivery })

-- CIRCLE_work_loop.
unfoldable pub work_loop :
    Os → (req_size : ℕ) → Input → (rounds cleanups : List Round) → Last → Work → Run Work
work_loop os req_size input rounds cleanups last w = do
  w1 ← work_rounds os req_size input rounds w
  w2 ← cleanup_rounds os req_size input cleanups w1
  settle os input last w2

-- The user creates work on the first rank, or on all.
unfoldable pub create_work : Input → (rank : ℕ) → Queue → State → Run (Queue × State)
create_work input rank q st =
    let created = (do
      create_cb ← deref input.create_cb
      (q', aborts) ← create_cb q
      ok (q', if aborts then bcast_abort st else st)) in
    if rank == 0 || has_option input.options create_global then created else ok (q, st)

-- CIRCLE_worker. The result has the lines of the checkpoint file where one is written.
unfoldable pub worker :
    Os
    → (req_size : ℕ) → Disk
    → Input
    → (rank size : ℕ) → (draws : List ℕ) → (rounds cleanups : List Round) → Last
    → (old : State) → Run (Work × Option (List ℕ))
worker os req_size disk input rank size draws rounds cleanups last old = do
  q ← deref input.queue
  st ← init_local_state os input q rank size draws old
  (q1, st1) ← create_work input rank q st
  w ←
      work_loop os req_size input rounds cleanups last
        (record { queue = q1; state = st1; delivered = [] })
  let written = checkpoint disk w.queue >>= λ (q2, rc, file). ok (q2, file)
  (q3, file) ← if w.state.abort_flag then written else ok (w.queue, none)
  ok (record w { queue = q3; state = finalize_local_state w.state }, file)

-- CIRCLE_MPI_error_handler: what MPI calls on an error writes a checkpoint of the queue as it is, and
-- the process exits after it. The text that is logged is not modelled.
pub error_handler : Disk → Queue → Run (Queue × ℤ × Option (List ℕ))
error_handler disk q = checkpoint disk q
