-- ===== src/Input.antt =====
-- What the user gives to the library, `CIRCLE_input_st` of libcircle/lib.h, and the functions of
-- libcircle/lib.c that set it: CIRCLE_init, the setters, CIRCLE_reduce and CIRCLE_finalize. What
-- MPI answers is a parameter. The calls of the user's functions are in Reduction and Worker.
pub mod Data
pub mod Start
use libcircle.Prelude.{
  ℕ, ◌+◌, ◌/◌, ◌%◌, ◌<◌, Bool, true, false, not, Option, none, some, List, [], ◌∷◌, ◌++◌, leb, ltb,
  ◌==◌, if◌then◌else◌, is_none, length, take, ℤ, pos, minus_one,
}
use libcircle.C.{Run, ok, ◌>>=◌, ◌>>◌, require, Os}
use libcircle.Queue.{Queue, Block}
use libcircle.State.{UserData}

-- A callback that is given the handle: what it makes of the queue, and whether it calls
-- CIRCLE_abort.
abbrev pub Callback : Type 0
Callback = Queue → Run (Queue × Bool)

-- A callback that gives data to a reduction, by calls of CIRCLE_reduce.
abbrev pub ReduceInit : Type 0
ReduceInit = UserData → Run UserData

-- A callback that combines the data of this rank, and its size, with the data received, and its
-- size, by calls of CIRCLE_reduce.
abbrev pub ReduceOp : Type 0
ReduceOp = Option (List ℕ) → ℕ → Option (List ℕ) → ℕ → UserData → Run UserData

-- `user` is the data of reductions up to the start of the worker, which then keeps it in its state.
-- Of the callback for the result only whether it is set is kept: what it is given is the result of
-- the reduction. `queue` is `none` for NULL.
pub record Input : Type 0 where
  pub create_cb : Option Callback
  pub process_cb : Option Callback
  pub reduce_init_cb : Option ReduceInit
  pub reduce_op_cb : Option ReduceOp
  pub reduce_fini_cb : Bool
  pub user : UserData
  pub reduce_period : ℤ
  pub options : ℕ
  pub tree_width : ℕ
  pub queue : Option Queue

-- The bits of the options.
abbrev pub split_equal : ℕ
split_equal = 2

abbrev pub create_global : ℕ
create_global = 4

abbrev pub term_tree : ℕ
term_tree = 8

-- `options & bit`
abbrev pub has_option : ℕ → ℕ → Bool
has_option options bit = (options / bit) % 2 == 1

pub set_options : Input → ℕ → Input
set_options input user_options = record input { options = user_options }

pub set_tree_width : Input → ℕ → Input
set_tree_width input width = record input { tree_width = width }

pub set_reduce_period : Input → ℤ → Input
set_reduce_period input secs = record input { reduce_period = secs }

pub cb_create : Input → Option Callback → Input
cb_create input func = record input { create_cb = func }

-- The function also creates the work where no other does.
pub cb_process : Input → Option Callback → Input
cb_process input func =
    let input1 = if is_none input.create_cb then record input { create_cb = func } else input in
    record input1 { process_cb = func }

pub cb_reduce_init : Input → Option ReduceInit → Input
cb_reduce_init input func = record input { reduce_init_cb = func }

pub cb_reduce_op : Input → Option ReduceOp → Input
cb_reduce_op input func = record input { reduce_op_cb = func }

pub cb_reduce_fini : Input → Bool → Input
cb_reduce_fini input func = record input { reduce_fini_cb = func }

-- The fields that CIRCLE_init sets before it calls MPI.
pub defaults : Input → (user_options : ℕ) → Input
defaults old user_options =
    set_options
      (record old {
        create_cb = none;
        process_cb = none;
        reduce_init_cb = none;
        reduce_op_cb = none;
        reduce_fini_cb = false;
        user = record { buf = none; size = 0 };
        reduce_period = pos 0;
        tree_width = 64;
      })
      user_options

-- The end of CIRCLE_init: the queue, and the rank or -1.
pub init_queue : Os → Input → (rank : ℕ) → Run (Input × ℤ)
init_queue os input rank = do
  queue ← libcircle.Queue.init os
  ok (record input { queue = queue }, if is_none queue then minus_one else pos rank)

-- `initialized` is what MPI_Initialized answers, `none` where it fails; `starts` says that MPI_Init
-- succeeds. The Boolean of the result is CIRCLE_must_finalize_mpi.
pub init :
    Os
    → Input
    → (user_options : ℕ) → (initialized : Option Bool) → (starts : Bool) → (rank : ℕ)
    → Run (Input × Bool × ℤ)
init os old user_options none starts rank = ok (defaults old user_options, false, minus_one)
init os old user_options (some true) starts rank = do
  (input, rc) ← init_queue os (defaults old user_options) rank
  ok (input, false, rc)
init os old user_options (some false) starts rank =
    let running = (do
      (input, rc) ← init_queue os (defaults old user_options) rank
      ok (input, true, rc)) in
    if starts then running else ok (defaults old user_options, false, minus_one)

-- CIRCLE_reduce. The old copy is freed first; a size of 0, or a refusal of memory, leaves NULL and
-- the old size.
pub reduce : Os → UserData → (buf : List ℕ) → (size : ℕ) → Run UserData
reduce os user buf size =
    let freed = record user { buf = none } in
    let copied = (do
      require (leb size (length buf))
      ok (record { buf = some (take size buf); size = size })) in
    if ltb 0 size then (if os.grants size then copied else ok freed) else ok freed

-- CIRCLE_finalize: the blocks of the queue that are freed, and whether MPI is shut down. The pointer
-- to the queue is kept.
pub finalize : Input → (must_finalize_mpi : Bool) → Input × List Block × Bool
finalize input must_finalize_mpi =
    let (rc, blocks) = libcircle.Queue.free input.queue in
    (record input { user = record (input.user) { buf = none } }, blocks, must_finalize_mpi)
