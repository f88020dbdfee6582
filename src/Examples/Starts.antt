-- ===== src/Examples/Starts.antt =====
-- The set-up of the library, and the answers to requests, at concrete inputs.
use libcircle.Prelude.{◌+◌, ◌≡◌, refl, true, false, none, some, [], ◌∷◌, not, arith, length, pos}
use libcircle.C.{ok}
use libcircle.Sends.{Sends}
use libcircle.Sends.Track.{IsTracked}
use libcircle.Input.{Input, init}
use libcircle.Input.Start.{IsStarted, init-IsStarted}
use libcircle.Request.{workreq_check}
use libcircle.Request.Refuse.{refused, workreq_check-refused}
use libcircle.Sends.Track.{HasSendRoom}
use libcircle.Examples.Sample.{machine, no_items, no_sends, no_sends-IsTracked, idle}

abbrev nothing_set : Input
nothing_set = record {
  create_cb = none;
  process_cb = none;
  reduce_init_cb = none;
  reduce_op_cb = none;
  reduce_fini_cb = false;
  user = record { buf = none; size = 3 };
  reduce_period = pos 5;
  options = 0;
  tree_width = 0;
  queue = none;
}

init-IsStarted_example :
    (input : Input) × (init machine nothing_set 8 (some false) true 2
      ≡ ok (input, not false, pos 2))
    × IsStarted input
    × (input.options ≡ 8)
init-IsStarted_example = init-IsStarted machine nothing_set 8 2 false true refl refl refl refl

no_sends-HasSendRoom : HasSendRoom 100 2 no_sends
no_sends-HasSendRoom = record {
  tracked = no_sends-IsTracked;
  within = omega arith;
  room = omega arith;
}

workreq_check-refused_example :
    (sends : Sends) × (workreq_check machine 8 true false 0 no_items (idle 1) (0 ∷ 0 ∷ [])
      ≡ ok (no_items, refused (idle 1) (0 ∷ 0 ∷ []) sends))
    × (length sends.slots ≡ 0 + 2)
    × IsTracked sends
workreq_check-refused_example =
    workreq_check-refused machine 8 100 true false 0 no_items (idle 1) (0 ∷ 0 ∷ []) (λ n. refl)
      no_sends-HasSendRoom (omega arith) (omega arith) refl
