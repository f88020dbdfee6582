-- ===== src/Examples/Queues.antt =====
-- The queue and its handle at concrete inputs.
use libcircle.Prelude.{◌≡◌, pos, true, some, [], ◌∷◌, arith}
use libcircle.C.{ok}
use libcircle.Queue.{push, pop}
use libcircle.Queue.Rep.{Holds}
use libcircle.Queue.Extend.{Outcome}
use libcircle.Queue.Push.{Pushed, push-Outcome}
use libcircle.Queue.Pop.{popped, pop-Holds}
use libcircle.Handle.{put, get, size}
use libcircle.Handle.Stack.{Implements, run-Implements}
use libcircle.Examples.Sample.{
  machine, letter_a, letter_b, letters, two_items, two_items-Holds, letter_a-NoZero,
  two_items-HasRoom, two_items-HasRoomFor,
}

push-Outcome_example :
    Outcome machine (Pushed two_items letter_a letters) (push machine two_items (some letter_a))
push-Outcome_example =
    push-Outcome machine letter_a two_items-Holds two_items-HasRoom letter_a-NoZero (omega arith)

pop-Holds_example :
    (pop two_items true ≡ ok (popped two_items two_items-Holds.offsets, pos 0, some letter_b))
    × Holds (popped two_items two_items-Holds.offsets) (letter_a ∷ [])
pop-Holds_example = pop-Holds two_items-Holds

run-Implements_example : Implements machine two_items letters (get ∷ put letter_a ∷ size ∷ [])
run-Implements_example =
    run-Implements machine (get ∷ put letter_a ∷ size ∷ []) two_items-Holds two_items-HasRoomFor
      (tt, ((letter_a-NoZero, omega arith), (tt, tt)))
