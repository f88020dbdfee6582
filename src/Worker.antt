-- ===== src/Worker.antt =====
-- libcircle/worker.c: CIRCLE_init_local_state, CIRCLE_finalize_local_state, and the first loop of
-- CIRCLE_work_loop; Worker/Cleanup has the rest of that, and CIRCLE_worker. What MPI answers during a
-- round of a loop is a parameter, `Round`. Not modelled: the settings that are logged, and the totals
-- that are printed at the end.
pub mod Alone
pub mod Cleanup
pub mod Drain
pub mod Finish
pub mod Steps
pub mod Keeps
pub mod Ready
pub mod Setup
use libcircle.Prelude.{
  ℕ, zero, suc, ◌+◌, ◌-◌, ◌*◌, ◌%◌, Bool, true, false, ◌&&◌, ◌||◌, not, Option, none, some, List,
  [], ◌∷◌, ◌++◌, leb, ltb, ◌==◌, if◌then◌else◌, is_none, length, ℤ, pos, negsuc,
}
use libcircle.C.{Run, ok, out_of_fuel, ◌>>=◌, ◌>>◌, require, deref, int_limit, Os}
use libcircle.Queue.{Queue}
use libcircle.Sends.{check, wait}
use libcircle.State.{Color, State}
use libcircle.Tree.{Tree}
use libcircle.Input.{Input, split_equal, create_global, term_tree, has_option}
use libcircle.Request.{get_next_proc, request_work, workreceipt_check, workreq_check}
use libcircle.Token.{is_terminate, token_check, check_for_term}
use libcircle.Collective.{barrier_start, barrier_test, check_for_term_allreduce}
use libcircle.Abort.{bcast_abort, abort_check, abort_reduce}
use libcircle.Reduction.{Callbacks, Reply, Delivery, is_positive, reduce_check, reduce_sync}
use libcircle.Checkpoint.{Disk, checkpoint}

-- The messages of the tree that `t` describes, in requests: `abort_num_req`.
abbrev pub abort_requests : Tree → ℕ
abort_requests t = 2 * (if is_none t.parent_rank then t.children else t.children + 1)

-- `calloc` of the array of received ints, whose refusal is not tested.
abbrev pub offsets_array : Os → (count : ℕ) → Option (ℕ → ℤ)
offsets_array os count = if os.grants (count * 4) then some (λ a. pos 0) else none

-- The fields that are set but for the rank, the size and the rank to ask first. The others keep what
-- the memory of the local variable holds, `old`; the abort flag is a global, which is not set here.
unfoldable pub fresh : Os → Input → Queue → Tree → (old : State) → State
fresh os input q tree old = record old {
  token = record {
    is_local = old.rank == 0;
    proc = Color.white;
    buf = Color.black;
    src = (old.rank + old.size - 1) % old.size;
    dest = (old.rank + 1 + old.size) % old.size;
    sending = false;
  };
  offsets = record { count = q.str_count; recv_buf = offsets_array os q.str_count };
  work_requested = false;
  request_pending = false;
  sends = record (old.sends) { slots = []; capacity = 0 };
  term_tree_enabled = has_option input.options term_tree;
  tree = tree;
  reduce = record (old.reduce) { enabled = is_positive input.reduce_period; outstanding = false };
  barrier = record { started = false; up = false; replies = 0 };
  work_outstanding = 0;
  term = record { flag = true; up = false; replies = 0 };
  user = input.user;
  abort = record { active = false; outstanding = false; num_req = abort_requests tree };
  local_objects_processed = 0;
  local_work_requested = 0;
  local_no_work_received = 0;
}

-- CIRCLE_init_local_state, for a communicator with at least one rank and a queue whose number of
-- slots is an int. `draws` is the numbers that rand_r returns.
pub init_local_state :
    Os → Input → Queue → (rank size : ℕ) → (draws : List ℕ) → (old : State) → Run State
init_local_state os input q rank size draws old = do
  require (ltb 0 size)
  require (ltb (rank + 1 + size) int_limit)
  require (ltb q.str_count int_limit)
  st ← get_next_proc (record old { rank = rank; size = size }) draws
  tree ← libcircle.Tree.init os rank size input.tree_width
  ok (fresh os input q tree st)

-- CIRCLE_finalize_local_state.
pub finalize_local_state : State → State
finalize_local_state st = record st {
  tree = libcircle.Tree.free st.tree;
  sends = libcircle.Sends.free st.sends;
  offsets = record (st.offsets) { recv_buf = none };
}

-- What the probes and tests of MPI find during a round of a loop, and what rand_r returns: `rand`
-- where work is split, `draws` where a rank is picked.
pub record Round : Type 0 where
  pub requestors : List ℕ
  pub rand : ℕ
  pub receipts : ℕ
  pub done : ℕ → Bool
  pub abort_request : Option ℕ
  pub abort_done : Bool
  pub due : Bool
  pub kicked : Bool
  pub found : List (Option Reply)
  pub tested : Bool
  pub reply : Option (List ℤ × List ℕ)
  pub draws : List ℕ
  pub token : Option Color
  pub token_tested : Bool
  pub flags : List Bool
  pub result : Option Bool
  pub arrived : Bool
  pub released : Bool

-- The queue, the state, and what was given to the user's function for the results of reductions.
pub record Work : Type 0 where
  pub queue : Queue
  pub state : State
  pub delivered : List (Option (List ℕ) × ℕ)

abbrev pub callbacks : Input → Callbacks
callbacks input = record {
  init = input.reduce_init_cb;
  op = input.reduce_op_cb;
  fini = input.reduce_fini_cb;
}

abbrev pub deliveries : Delivery → List (Option (List ℕ) × ℕ)
deliveries none = []
deliveries (some d) = d ∷ []

-- `if(sptr->reduce_enabled) CIRCLE_reduce_check(...)`
pub progress : Os → Input → (cleanup : Bool) → Round → Work → Run Work
progress os input cleanup r w =
    let st = w.state in
    let checked = (do
      (st', delivery) ←
          reduce_check os (callbacks input) st st.local_objects_processed cleanup r.due r.kicked
            r.found
      ok (record w { state = st'; delivered = w.delivered ++ deliveries delivery })) in
    if st.reduce.enabled then checked else ok w

-- The calls of CIRCLE_workreq_check and of CIRCLE_worksend_check, with that of
-- CIRCLE_workreceipt_check between them outside the cleanup phase.
pub serve : Os → (req_size : ℕ) → Input → (cleanup : Bool) → Round → Work → Run Work
serve os req_size input cleanup r w = do
  (q, st1) ←
      workreq_check os req_size (has_option input.options split_equal) cleanup r.rand w.queue
        w.state r.requestors
  let st2 = if cleanup then st1 else workreceipt_check st1 r.receipts
  (sends, freed) ← check r.done st2.sends
  ok (record w { queue = q; state = record st2 { sends = sends } })

pub fetch : Os → (req_size : ℕ) → (cleanup : Bool) → Round → Work → Run Work
fetch os req_size cleanup r w = do
  (q, st, rc) ← request_work os req_size cleanup r.tested r.reply r.draws w.queue w.state
  ok (record w { queue = q; state = st })

pub watch : (cleanup : Bool) → Round → Work → Run Work
watch cleanup r w = do
  st ← abort_check w.state cleanup r.abort_request r.abort_done
  ok (record w { state = st })

-- The user's function is called for one item. The count is an int, whose overflow is undefined.
pub process_item : Input → Work → Run Work
process_item input w = do
  process_cb ← deref input.process_cb
  (q, aborts) ← process_cb w.queue
  let st = if aborts then bcast_abort w.state else w.state
  require (ltb (st.local_objects_processed + 1) int_limit)
  ok (record w {
    queue = q;
    state = record st { local_objects_processed = st.local_objects_processed + 1 };
  })

pub term_status : Round → State → Run (State × Color)
term_status r st =
    if st.term_tree_enabled
    then check_for_term_allreduce st r.flags r.result
    else ok (check_for_term st r.token)

-- The Boolean says that the loop ends.
pub process_or_end : Input → Round → Work → Run (Work × Bool)
process_or_end input r w =
    let processed = (do w' ← process_item input w; ok (w', false)) in
    let checked = (do
      (st, color) ← term_status r w.state
      ok (record w { state = st }, is_terminate color)) in
    if ltb 0 w.queue.count && not w.state.abort_flag then processed else checked

-- One round of the first loop of CIRCLE_work_loop.
pub work_round : Os → (req_size : ℕ) → Input → Round → Work → Run (Work × Bool)
work_round os req_size input r w = do
  w1 ← serve os req_size input false r w
  w2 ← watch false r w1
  w3 ← progress os input false r w2
  w4 ← if w3.queue.count == 0 then fetch os req_size false r w3 else ok w3
  process_or_end input r w4

-- The first loop, for the rounds given.
pub work_rounds : Os → (req_size : ℕ) → Input → List Round → Work → Run Work
work_rounds os req_size input [] w = out_of_fuel
work_rounds os req_size input (r ∷ rounds) w = do
  (w', ends) ← work_round os req_size input r w
  elim ends [ true ↦ ok w' | false ↦ work_rounds os req_size input rounds w' ]
