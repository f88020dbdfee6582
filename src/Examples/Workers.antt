-- ===== src/Examples/Workers.antt =====
-- The worker on one rank, at concrete inputs.
use libcircle.Prelude.{◌∙◌, ◌≡◌, refl, ℕ, true, false, some, none, List, [], ◌∷◌, arith, pos, All}
use libcircle.C.{ok, ◌>>=◌}
use libcircle.Queue.{Queue, pop}
use libcircle.Queue.Rep.{Holds}
use libcircle.Queue.Pop.{popped, popped-Holds, pop-Holds}
use libcircle.State.{State}
use libcircle.Input.{Input, Callback}
use libcircle.Request.Ask.{Hits, here, later}
use libcircle.Checkpoint.{Disk}
use libcircle.Checkpoint.Save.{lines}
use libcircle.Worker.{Round, Work, init_local_state, work_rounds}
use libcircle.Worker.Cleanup.{worker}
use libcircle.Worker.Setup.{IsReady, init_local_state-IsReady}
use libcircle.Worker.Alone.{IsQuiet, IsAlone, at-IsAlone, round-calm}
use libcircle.Worker.Drain.{
  called, process-calls, Drains, stop, HasDrained, work_rounds-drain, work_rounds-flagged, Shrinks,
}
use libcircle.Worker.Steps.{Steps, work, rest, Moves, Steps-Moves}
use libcircle.Worker.Finish.{CanRun, worker-empties, worker-checkpoints}
use libcircle.Examples.Sample.{machine, letter_a, letters, two_items, two_items-Holds, idle}

-- Each call takes an item.
abbrev pub take_one : Callback
take_one q = pop q true >>= λ (q', rc, out). ok (q', false)

-- The first call takes an item and aborts.
abbrev take_and_abort : Callback
take_and_abort q = pop q true >>= λ (q', rc, out). ok (q', true)

abbrev pub program : Callback → Input
program process = record {
  create_cb = some (λ q. ok (q, false));
  process_cb = some process;
  reduce_init_cb = none;
  reduce_op_cb = none;
  reduce_fini_cb = false;
  user = record { buf = none; size = 0 };
  reduce_period = pos 0;
  options = 8;
  tree_width = 64;
  queue = some two_items;
}

abbrev silence : Round
silence = record {
  requestors = [];
  rand = 0;
  receipts = 0;
  done = λ r. false;
  abort_request = none;
  abort_done = true;
  due = false;
  kicked = false;
  found = [];
  tested = false;
  reply = none;
  draws = [];
  token = none;
  token_tested = false;
  flags = [];
  result = none;
  arrived = false;
  released = false;
}

silence-IsQuiet : IsQuiet silence
silence-IsQuiet = record { no_request = refl; no_receipt = refl; no_abort = refl; no_flag = refl }

abbrev three_rounds : List Round
three_rounds = silence ∷ silence ∷ silence ∷ []

three_rounds-IsQuiet : All IsQuiet three_rounds
three_rounds-IsQuiet = (silence-IsQuiet, (silence-IsQuiet, (silence-IsQuiet, tt)))

HoldsSome : Queue → Type 0
HoldsSome q = (items : List (List ℕ)) × Holds q items

take_one-Shrinks : Shrinks take_one HoldsSome (λ q. q.count)
unfolding HoldsSome
take_one-Shrinks q ([], h) some_ = absurd (omega (arith, some_, h.counted))
take_one-Shrinks q (x ∷ items, h) some_ =
    (popped q h.offsets, rw ((pop-Holds h).0) refl, (items, popped-Holds h), omega (arith, some_))

program-CanRun : (process : Callback) → CanRun machine (program process) process two_items two_items
program-CanRun process = record {
  create = λ q. ok (q, false);
  has_queue = refl;
  creates = refl;
  created = refl;
  processes = refl;
  by_tree = refl;
  no_reduction = refl;
  wide = omega arith;
  narrow = omega arith;
  granted = refl;
  slots = omega arith;
}

two_items-HoldsSome : HoldsSome two_items
unfolding HoldsSome
two_items-HoldsSome = (letters, two_items-Holds)

abbrev good_disk : Disk
good_disk = record { opens = true; prints = λ k. true; closes = pos 0 }

worker-empties_example :
    (w : Work) × (worker machine 8 good_disk
        (program take_one)
        0
        1
        []
        three_rounds
        (silence ∷ [])
        (record { replies = []; flags = []; answer = false })
        (idle 0)
      ≡ ok (w, none))
    × Drains take_one two_items w.state.local_objects_processed false w.queue
    × HoldsSome w.queue
    × (w.queue.count ≡ 0)
worker-empties_example =
    worker-empties machine 8 good_disk (program take_one) take_one HoldsSome (λ q. q.count)
      two_items two_items [] three_rounds silence [] false (idle 0) (program-CanRun take_one)
      take_one-Shrinks two_items-HoldsSome refl three_rounds-IsQuiet (omega arith) (omega arith)

-- The queue that holds "a".
abbrev one_item : Queue
one_item = popped two_items (two_items-Holds.offsets)

one_item-Holds : Holds one_item (letter_a ∷ [])
one_item-Holds = popped-Holds two_items-Holds

aborts-once : Drains take_and_abort two_items 1 true one_item
aborts-once = stop (omega arith) (rw ((pop-Holds two_items-Holds).0) refl)

worker-checkpoints_example :
    (w : Work) × (worker machine 8 good_disk
        (program take_and_abort)
        0
        1
        []
        three_rounds
        (silence ∷ [])
        (record { replies = []; flags = []; answer = false })
        (idle 0)
      ≡ ok (w, some (lines (letter_a ∷ []))))
    × (w.state.local_objects_processed ≡ 1)
    × Holds w.queue []
worker-checkpoints_example =
    worker-checkpoints machine 8 good_disk (program take_and_abort) take_and_abort two_items
      two_items one_item [] three_rounds silence [] false (idle 0) 1 letter_a []
      (program-CanRun take_and_abort) refl three_rounds-IsQuiet (omega arith) (omega arith)
      aborts-once one_item-Holds refl (λ k. refl)

-- The only rank, ready to work.
abbrev lonely : Work
lonely = record {
  queue = two_items;
  state = record (idle 0) { term = record { flag = true; up = false; replies = 0 } };
  delivered = [];
}

lonely-IsAlone : IsAlone lonely.state
lonely-IsAlone = record {
  root = refl;
  leaf = refl;
  nobody = refl;
  no_sends = refl;
  not_asked = refl;
  nothing_sent = refl;
  no_token = refl;
  by_tree = refl;
  no_transfer = refl;
  term_flag = refl;
  term_down = refl;
  term_none = refl;
  no_reduction = refl;
  reduced = refl;
  no_alarm = refl;
  barrier_up = refl;
  barrier_none = refl;
}

work_rounds-drain_example :
    (st' : State) × (work_rounds machine 8 (program take_and_abort) three_rounds lonely
      ≡ ok (record lonely { queue = one_item; state = st' }))
    × HasDrained lonely.state 1 true st'
work_rounds-drain_example =
    work_rounds-drain machine 8 (program take_and_abort) take_and_abort three_rounds lonely 1 true
      one_item refl lonely-IsAlone refl three_rounds-IsQuiet (omega arith) (omega arith) aborts-once

-- One round, in which the user's function takes an item and aborts.
one_round : Steps machine 8 (program take_and_abort) lonely (called lonely one_item true)
one_round =
    work silence
      (round-calm machine 8 (program take_and_abort) silence lonely silence-IsQuiet lonely-IsAlone
          refl
        ∙ process-calls (program take_and_abort) take_and_abort silence lonely one_item true refl
            (omega arith) refl (rw ((pop-Holds two_items-Holds).0) refl) (omega arith))
      rest

Steps-Moves_example : Moves lonely.state (called lonely one_item true).state
Steps-Moves_example =
    Steps-Moves machine 8 (program take_and_abort) lonely (called lonely one_item true) one_round

abbrev left_over : Work
left_over = record lonely { state = record (lonely.state) { abort_flag = true } }

work_rounds-flagged_example :
    (st' : State) × (work_rounds machine 8 (program take_one) three_rounds left_over
      ≡ ok (record left_over { state = st' }))
    × HasDrained left_over.state 0 true st'
work_rounds-flagged_example =
    work_rounds-flagged machine 8 (program take_one) three_rounds left_over three_rounds-IsQuiet
      (omega arith) (at-IsAlone lonely.state 0 true false lonely-IsAlone) refl

-- The rank 4 of 7.
draws-Hits : Hits 4 7 (11 ∷ 3 ∷ [])
draws-Hits = later (here (λ e. omega (arith, e)))

init_local_state-IsReady_example :
    (st : State) × (init_local_state machine (program take_one) two_items 4 7 (11 ∷ 3 ∷ []) (idle 0)
      ≡ ok st)
    × IsReady 4 7 64 st
init_local_state-IsReady_example =
    init_local_state-IsReady machine (program take_one) two_items 4 7 (11 ∷ 3 ∷ []) (idle 0)
      (omega arith) (omega arith) (omega arith) (omega arith) (omega arith) (omega arith) refl
      draws-Hits refl
