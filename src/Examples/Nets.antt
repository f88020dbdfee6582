-- ===== src/Examples/Nets.antt =====
-- The abort messages and the reductions over a tree of two ranks.
use libcircle.Prelude.{
  ◌≡◌, ◌<◌, ◌+◌, ◌^◌, ◌&&◌, ◌==◌, pos, refl, ℕ, zero, suc, Bool, true, false, some, none, List, [],
  ◌∷◌, arith, get_elem?, length, if◌then◌else◌, All,
}
use libcircle.C.{ok, fault, ◌>>=◌}
use libcircle.State.{UserData, State}
use libcircle.Abort.{abort_check}
use libcircle.Abort.Flood.{Alarms, abort_check-Alarms}
use libcircle.Abort.Spread.{HasNeighbours}
use libcircle.Abort.Sweep.{sweep, any_abort, Knows, sweep-agrees}
use libcircle.Collective.Agree.{AllReturn, verdict, all_set, agree_all, Quiet, agree_all-returns}
use libcircle.Collective.Net.{Net, node, leaf, also, count, size, Linked}
use libcircle.Input.{reduce}
use libcircle.Reduction.{Callbacks, Reply, call_op, deliver, send_partial, reduce_check}
use libcircle.Reduction.Progress.{
  OpReturns, arrived, totals, all_valid, heard, closed, reduce_check-root,
}
use libcircle.Reduction.Sync.{Fits, reduce_net, processed, combined}
use libcircle.Reduction.Sum.{reduce_net-total}
use libcircle.Reduction.Stale.{reduce-stale}
use libcircle.Examples.Sample.{machine, idle, letter_a}

-- The first rank, whose child is the other.
abbrev first : (aborted : Bool) → State
first aborted = record (idle 0) {
  tree = record {
    rank = 0;
    ranks = 2;
    parent_rank = none;
    children = 1;
    child_ranks = some 1 ∷ [];
  };
  term = record { flag = true; up = false; replies = 0 };
  local_objects_processed = 4;
  abort_flag = aborted;
}

abbrev second : State
second = record (idle 1) {
  tree = record { rank = 1; ranks = 2; parent_rank = some 0; children = 0; child_ranks = [] };
  term = record { flag = true; up = false; replies = 0 };
  local_objects_processed = 3;
}

abbrev pair : (aborted : Bool) → Net
pair aborted = node (first aborted) 1 (also (node second 2 leaf) leaf)

one_child : (j : ℕ) → j < 1 → get_elem? (some 1 ∷ []) j ≡ some (some (1 + j))
one_child zero lt = refl
one_child (suc j) lt = absurd (omega arith)

pair-Linked : (aborted : Bool) → Linked none (pair aborted)
unfolding Linked count
pair-Linked aborted =
    (refl, refl, one_child, (refl, (refl, refl, (λ j lt. absurd (omega (arith, lt))), tt), tt))

first-HasNeighbours : (aborted : Bool) → HasNeighbours (first aborted) 1
first-HasNeighbours aborted = record { room = omega arith; child = one_child }

abort_check-Alarms_example :
    (st' : State) × (abort_check (first true) false none true ≡ ok st')
    × Alarms (first true) 1 [] st'
abort_check-Alarms_example =
    abort_check-Alarms (first true) 1 true (first-HasNeighbours true) refl refl

sweep-agrees_example :
    (states : List State) × (sweep false (pair true) ≡ ok states)
    × (length states ≡ size (pair true))
    × All (Knows (any_abort (pair true))) states
sweep-agrees_example = sweep-agrees (pair true) false (pair-Linked true)

pair-Quiet : Quiet (pair false)
unfolding Quiet
pair-Quiet = (refl, refl, refl, ((refl, refl, refl, tt), tt))

agree_all-returns_example :
    AllReturn (verdict (all_set (pair false))) (size (pair false)) (agree_all (pair false))
agree_all-returns_example = agree_all-returns (pair false) (pair-Linked false) pair-Quiet

-- The user keeps the longer data.
abbrev longer : List ℕ → List ℕ → List ℕ
longer a b = a

letter-Fits : Fits letter_a
letter-Fits = (omega arith, omega arith)

pair-processed : processed (pair false) < 2 ^ 63
unfolding processed
pair-processed = omega arith

reduce_net-total_example :
    (st' : State) × (reduce_net machine longer (λ r. letter_a) true (pair false)
      ≡ ok (
        st',
        some (
          some (combined longer (λ r. letter_a) (pair false)),
          length (combined longer (λ r. letter_a) (pair false)),
        ),
      ))
    × (st'.reduce.total ≡ processed (pair false))
reduce_net-total_example =
    reduce_net-total machine longer (λ r. letter_a) (pair false) (λ n. refl) (λ a b x y. x)
      (λ r. letter-Fits) (pair-Linked false) pair-processed

abbrev given : State
given = record second { user = record { buf = some letter_a; size = 1 } }

reduce-stale_example :
    (reduce machine given.user [] 0 >>= λ user. send_partial (record given { user = user }) true)
    ≡ fault
reduce-stale_example = reduce-stale machine given letter_a [] 0 refl refl letter-Fits

-- The first rank while a reduction is under way, and a reply of the other.
abbrev reducing : State
reducing = record (first false) {
  reduce = record {
    enabled = true;
    outstanding = true;
    replies = 0;
    valid = true;
    total = 0;
    bytes = pos 0;
  };
}

abbrev answer : Reply
answer = record { valid = true; total = 3; bytes = 1; chars = letter_a }

abbrev no_functions : Callbacks
no_functions = record { init = none; op = none; fini = true }

no_functions-OpReturns : OpReturns no_functions
unfolding call_op
no_functions-OpReturns user inbuf insize = (user, refl)

answer-small : 0 + totals (some answer ∷ []) + 4 < 2 ^ 63
unfolding totals
answer-small = omega arith

reduce_check-root_example :
    (user : UserData) × (reduce_check machine no_functions reducing 4 false false false
        (some answer ∷ [])
      ≡ ok (
          if 0 + arrived (some answer ∷ []) == 1
          then (
            closed reducing
                (0 + arrived (some answer ∷ []))
                (0 + totals (some answer ∷ []) + 4)
                (true && all_valid (some answer ∷ []))
                user,
            if true && all_valid (some answer ∷ []) then deliver no_functions user else none,
          )
          else (
            heard reducing
                (0 + arrived (some answer ∷ []))
                (0 + totals (some answer ∷ []))
                (true && all_valid (some answer ∷ []))
                user,
            none,
          )))
reduce_check-root_example =
    reduce_check-root machine no_functions reducing 4 false false false (some answer ∷ [])
      (λ n. refl) no_functions-OpReturns refl refl answer-small
