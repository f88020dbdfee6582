-- ===== src/Input/Start.antt =====
-- CIRCLE_init, and the functions of the user that are set after it.
use libcircle.Prelude.{ℕ, ◌*◌, ◌≡◌, refl, Bool, true, false, not, ◌||◌, none, some, [], pos}
use libcircle.C.{ok, Os}
use libcircle.Queue.{Queue, initial_size, max_string_len, ptr_size, struct_size}
use libcircle.Queue.Rep.{Holds}
use libcircle.Queue.Init.{init-Holds}
use libcircle.Input.{
  Callback, Input, set_options, defaults, init_queue, init, cb_create, cb_process,
}

-- An input in which nothing is set but the defaults, with a queue that holds nothing.
pub record IsStarted (input : Input) : Type 0 where
  pub queue : Queue
  pub has_queue : input.queue ≡ some queue
  pub empty : Holds queue []
  pub no_create : input.create_cb ≡ none
  pub no_process : input.process_cb ≡ none
  pub no_init : input.reduce_init_cb ≡ none
  pub no_op : input.reduce_op_cb ≡ none
  pub no_fini : input.reduce_fini_cb ≡ false
  pub no_period : input.reduce_period ≡ pos 0
  pub width : input.tree_width ≡ 64
  pub no_data : input.user ≡ record { buf = none; size = 0 }

init_queue-IsStarted :
    (os : Os) (old : Input) (options rank : ℕ)
    → os.grants struct_size ≡ true
    → os.grants (max_string_len * initial_size) ≡ true
    → os.grants (ptr_size * initial_size) ≡ true
    → (input : Input) × (init_queue os (defaults old options) rank ≡ ok (input, pos rank))
      × IsStarted input
      × (input.options ≡ options)
unfolding init_queue defaults set_options
init_queue-IsStarted os old options rank a b c =
    let (e, h) = init-Holds os a b c in
    (
      record (defaults old options) { queue = some (libcircle.Queue.Init.fresh os) },
      rw e refl,
      record {
        queue = libcircle.Queue.Init.fresh os;
        has_queue = refl;
        empty = h;
        no_create = refl;
        no_process = refl;
        no_init = refl;
        no_op = refl;
        no_fini = refl;
        no_period = refl;
        width = refl;
        no_data = refl;
      },
      refl,
    )

-- CIRCLE_init, where MPI is running or starts and memory is granted, returns the rank, with a queue
-- that holds nothing, none of the user's five functions set, no data of the user, no period of
-- reductions, a tree of width 64, the options given, and with MPI to be shut down later exactly where
-- it was not running before.
pub init-IsStarted :
    (os : Os) (old : Input) (options rank : ℕ) (running starts : Bool)
    → os.grants struct_size ≡ true
    → os.grants (max_string_len * initial_size) ≡ true
    → os.grants (ptr_size * initial_size) ≡ true
    → (running || starts) ≡ true
    → (input : Input) × (init os old options (some running) starts rank
        ≡ ok (input, not running, pos rank))
      × IsStarted input
      × (input.options ≡ options)
unfolding init
init-IsStarted os old options rank true starts a b c e =
    let (input, run, h, o) = init_queue-IsStarted os old options rank a b c in
    (input, rw run refl, h, o)
init-IsStarted os old options rank false starts a b c e =
    let (input, run, h, o) = init_queue-IsStarted os old options rank a b c in
    (input, rw (e, run) refl, h, o)

-- The function that processes work and the one that creates it may be set in either order; where the
-- one that processes is set alone, on an input without the other, it creates the work too.
pub callbacks_commute :
    (input : Input) (create process : Callback)
    → input.create_cb ≡ none
    → (cb_create (cb_process input (some process)) (some create)
        ≡ cb_process (cb_create input (some create)) (some process))
      × ((cb_process input (some process)).create_cb ≡ some process)
      × ((cb_process input (some process)).process_cb ≡ some process)
unfolding cb_create cb_process
callbacks_commute input create process e = rw e (refl, refl, refl)
