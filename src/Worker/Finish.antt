-- ===== src/Worker/Finish.antt =====
-- A whole run of a worker on a communicator of one rank.
use libcircle.Prelude.{
  ℕ, ◌+◌, ◌*◌, ◌<◌, ◌≡◌, refl, sym, ◌∙◌, Bool, true, false, Option, none, some, List, [], ◌∷◌, All,
  arith, length, if◌then◌else◌,
}
use mathlib.Core.List.{append-nil}
use mathlib.Core.Path.{subst}
use libcircle.C.{Run, ok, ◌>>=◌, int_limit, Os}
use libcircle.Queue.{Queue}
use libcircle.Sends.{wait}
use libcircle.State.{State}
use libcircle.Tree.{int_size}
use libcircle.Input.{Input, Callback, has_option, term_tree}
use libcircle.Reduction.{is_positive}
use libcircle.Checkpoint.{Disk, checkpoint}
use libcircle.Checkpoint.Save.{lines, write-lines, checkpoint_lem}
use libcircle.Queue.Rep.{Holds}
use libcircle.Worker.Setup.{init_local_state-IsAlone}
use libcircle.Abort.Rest.{abort_reduce-alone}
use libcircle.Collective.Rest.{barrier_test-alone}
use libcircle.Worker.{Round, Work, finalize_local_state}
use libcircle.Worker.Cleanup.{
  is_settled, cleanup_round, cleanup_rounds, settle, work_loop, create_work, worker,
}
use libcircle.Worker.Alone.{IsQuiet, IsAlone}
use libcircle.Worker.Drain.{Drains, Shrinks, Shrinks-drain, work_rounds-drain}

settled-alone : (st : State) → IsAlone st → is_settled st ≡ true
unfolding is_settled
settled-alone st a =
    simp (a.not_asked, a.reduced, a.no_alarm, a.no_sends, a.nothing_sent, a.no_token)

-- The rank when the barrier is passed.
abbrev rested : State → State
rested st = record st { barrier = record { started = false; up = false; replies = 0 } }

cleanup-alone :
    (os : Os) (req_size : ℕ) (input : Input) (r : Round) (rounds : List Round) (w : Work)
    → IsAlone w.state
    → cleanup_rounds os req_size input (r ∷ rounds) w ≡ ok (record w { state = rested w.state })
unfolding cleanup_rounds cleanup_round
cleanup-alone os req_size input r rounds w a =
    rw
      (
        settled-alone w.state a,
        barrier_test-alone w.state r.arrived r.released a.root a.leaf a.barrier_up a.barrier_none,
      )
      refl

-- The state that is left at the end.
abbrev left : State → State
left st = record st {
  request_pending = false;
  sends = record (st.sends) { slots = [] };
  abort = record (st.abort) { active = st.abort_flag };
}

settle-alone :
    (os : Os) (input : Input) (answer : Bool) (w : Work)
    → w.state.reduce.enabled ≡ false
    → w.state.tree.parent_rank ≡ none
    → w.state.tree.children ≡ 0
    → settle os input (record { replies = []; flags = []; answer = answer }) w
      ≡ ok (record w { state = left w.state })
unfolding settle wait
settle-alone os input answer w e p c = simp (
  e,
  abort_reduce-alone
      (record (w.state) { sends = record (w.state.sends) { slots = [] }; request_pending = false })
      answer p c,
  append-nil,
)

-- The run of the loops with nothing else but the calls.
work_loop-drain :
    (os : Os) (req_size : ℕ) (input : Input) (cb : Callback) (rounds : List Round) (r : Round)
    (cleanups : List Round) (answer : Bool) (w : Work) (n : ℕ) (aborted : Bool) (q' : Queue)
    → input.process_cb ≡ some cb
    → IsAlone w.state
    → w.state.abort_flag ≡ false
    → All IsQuiet rounds
    → n < length rounds
    → w.state.local_objects_processed + n < int_limit
    → Drains cb w.queue n aborted q'
    → (st' : State) × (work_loop os req_size input rounds
          (r ∷ cleanups)
          (record { replies = []; flags = []; answer = answer })
          w
        ≡ ok (record w { queue = q'; state = st' }))
      × (st'.local_objects_processed ≡ w.state.local_objects_processed + n)
      × (st'.abort_flag ≡ aborted)
unfolding work_loop
work_loop-drain os req_size input cb rounds r cleanups answer w n aborted q' p a f h enough small
      d =
    let (st1, run, done) =
      work_rounds-drain os req_size input cb rounds w n aborted q' p a f h enough small d in
    let w1 = record w { queue = q'; state = st1 } in
    let alone = done.alone in
    (
      left (rested st1),
      rw
          (
            run,
            cleanup-alone os req_size input r cleanups w1 alone,
            settle-alone os input answer (record w1 { state = rested st1 }) alone.no_reduction
                alone.root alone.leaf,
          )
          refl,
      done.counted,
      done.flag,
    )

-- What a user has set up for a run on one rank: the first queue `q0`, the function that creates
-- work, which makes `q1` of it, and the function `cb` that processes it; termination by the tree,
-- and no reductions.
pub record CanRun (os : Os) (input : Input) (cb : Callback) (q0 q1 : Queue) : Type 0 where
  pub create : Callback
  pub has_queue : input.queue ≡ some q0
  pub creates : input.create_cb ≡ some create
  pub created : create q0 ≡ ok (q1, false)
  pub processes : input.process_cb ≡ some cb
  pub by_tree : has_option input.options term_tree ≡ true
  pub no_reduction : is_positive input.reduce_period ≡ false
  pub wide : 0 < input.tree_width
  pub narrow : input.tree_width < int_limit
  pub granted : os.grants (input.tree_width * int_size) ≡ true
  pub slots : q0.str_count < int_limit

-- The checkpoint that an aborted run writes.
abbrev at_end : Disk → Bool → Queue → Run (Queue × Option (List ℕ))
at_end disk aborted q =
    if aborted then (checkpoint disk q >>= λ (q2, rc, file). ok (q2, file)) else ok (q, none)

worker-runs :
    (os : Os) (req_size : ℕ) (disk : Disk) (input : Input) (cb : Callback) (q0 q1 q' : Queue)
    (draws : List ℕ) (rounds : List Round) (r : Round) (cleanups : List Round) (answer : Bool)
    (old : State) (n : ℕ) (aborted : Bool)
    → CanRun os input cb q0 q1
    → old.abort_flag ≡ false
    → All IsQuiet rounds
    → n < length rounds
    → n < int_limit
    → Drains cb q1 n aborted q'
    → (st' : State) × (worker os req_size disk input 0 1 draws rounds
          (r ∷ cleanups)
          (record { replies = []; flags = []; answer = answer })
          old
        ≡ (at_end disk aborted q' >>= λ (q3, file).
            ok (record { queue = q3; state = finalize_local_state st'; delivered = [] }, file)))
      × (st'.local_objects_processed ≡ n)
unfolding worker create_work
worker-runs os req_size disk input cb q0 q1 q' draws rounds r cleanups answer old n aborted c calm h
      enough small d =
    let (st, set, alone, flag, zero_) =
      init_local_state-IsAlone os input q0 draws old c.slots c.wide c.narrow c.granted c.by_tree
        c.no_reduction in
    let (st', run, count, ended) =
      work_loop-drain os req_size input cb rounds r cleanups answer
        (record { queue = q1; state = st; delivered = [] }) n aborted q' c.processes alone
        (flag ∙ calm) h enough (omega (arith, small, zero_)) d in
    (st', simp (c.has_queue, set, c.creates, c.created, run, ended), omega (arith, count, zero_))

-- A run on one rank, with the tree for termination and no reductions, in which no call aborts and
-- no abort is left over from before: where each call of the user's function takes a queue that is
-- not empty to one of smaller measure, the worker returns. It has then called the function until
-- the queue was empty, has counted the calls, and has written no checkpoint file. As many rounds
-- as the measure of the created queue and one more are enough for the first loop, and one for the
-- second. The measure, the width of the tree and the slots of the queue fit an int, the width is
-- positive, the memory for the node is granted, the created queue has the property that all calls
-- keep, and the function that creates it is set and does not abort. No round of the first loop
-- finds a message.
pub worker-empties :
    (os : Os) (req_size : ℕ) (disk : Disk) (input : Input) (cb : Callback) (P : Queue → Type 0)
    (measure : Queue → ℕ) (q0 q1 : Queue) (draws : List ℕ) (rounds : List Round) (r : Round)
    (cleanups : List Round) (answer : Bool) (old : State)
    → CanRun os input cb q0 q1
    → Shrinks cb P measure
    → P q1
    → old.abort_flag ≡ false
    → All IsQuiet rounds
    → measure q1 < length rounds
    → measure q1 < int_limit
    → (w : Work) × (worker os req_size disk input 0 1 draws rounds
          (r ∷ cleanups)
          (record { replies = []; flags = []; answer = answer })
          old
        ≡ ok (w, none))
      × Drains cb q1 w.state.local_objects_processed false w.queue
      × P w.queue
      × (w.queue.count ≡ 0)
unfolding finalize_local_state
worker-empties os req_size disk input cb P measure q0 q1 draws rounds r cleanups answer old c s p
      calm h enough small =
    let (n, q', d, le, p', e) = Shrinks-drain cb P measure (measure q1) q1 s p (omega arith) in
    let (st', run, count) =
      worker-runs os req_size disk input cb q0 q1 q' draws rounds r cleanups answer old n false c
        calm h (omega (arith, le, enough)) (omega (arith, le, small)) d in
    (
      record { queue = q'; state = finalize_local_state st'; delivered = [] },
      run,
      subst (λ k. Drains cb q1 k false q') (sym count) d,
      p',
      e,
    )

-- A run on one rank, with the tree for termination and no reductions, and no abort left over from
-- before, in which a call of the user's function aborts and leaves a queue that holds strings.
-- The number of calls, the width of the tree and the slots of the queue fit an int, the width is
-- positive, the memory for the node is granted, the function that creates the queue is set and
-- does not abort, there are more rounds than calls, and no round of the first loop finds a
-- message. The worker returns, has counted the calls, and has moved the strings that were left,
-- and no others, into the checkpoint file, the last one pushed first, where the file opens and
-- every line is written.
pub worker-checkpoints :
    (os : Os) (req_size : ℕ) (disk : Disk) (input : Input) (cb : Callback) (q0 q1 q' : Queue)
    (draws : List ℕ) (rounds : List Round) (r : Round) (cleanups : List Round) (answer : Bool)
    (old : State) (n : ℕ) (x : List ℕ) (items : List (List ℕ))
    → CanRun os input cb q0 q1
    → old.abort_flag ≡ false
    → All IsQuiet rounds
    → n < length rounds
    → n < int_limit
    → Drains cb q1 n true q'
    → Holds q' (x ∷ items)
    → disk.opens ≡ true
    → ((k : ℕ) → disk.prints k ≡ true)
    → (w : Work) × (worker os req_size disk input 0 1 draws rounds
          (r ∷ cleanups)
          (record { replies = []; flags = []; answer = answer })
          old
        ≡ ok (w, some (lines (x ∷ items))))
      × (w.state.local_objects_processed ≡ n)
      × Holds w.queue []
unfolding finalize_local_state
worker-checkpoints os req_size disk input cb q0 q1 q' draws rounds r cleanups answer old n x items c
      calm h enough small d holds opens prints =
    let (st', run, count) =
      worker-runs os req_size disk input cb q0 q1 q' draws rounds r cleanups answer old n true c
        calm h enough small d in
    let (q2, written, empty_) = write-lines disk x items opens prints holds in
    (
      record { queue = q2; state = finalize_local_state st'; delivered = [] },
      run ∙ rw (checkpoint_lem disk q', written) refl,
      count,
      empty_,
    )
