-- ===== src/Examples/Shares.antt =====
-- Work is shared, and two ranks are set up, at concrete inputs.
use libcircle.Prelude.{ℕ, ◌≡◌, refl, true, false, List, [], ◌∷◌, arith}
use libcircle.C.{ok}
use libcircle.Queue.{Queue}
use libcircle.Sends.Track.{HasSendRoom}
use libcircle.Spread.{split_sizes}
use libcircle.State.{State}
use libcircle.Request.{workreq_check}
use libcircle.Request.Share.{HasShared, workreq_check-HasShared}
use libcircle.Examples.Sample.{
  machine, letters, two_items, two_items-Holds, no_sends, no_sends-IsTracked, idle,
}

room : HasSendRoom 100 2 no_sends
room = record { tracked = no_sends-IsTracked; within = omega arith; room = omega arith }

workreq_check-HasShared_example :
    (sizes : List ℕ) × (q' : Queue) × (st' : State) × (split_sizes true 0 1 2 ≡ ok sizes)
    × (workreq_check machine 8 true false 0 two_items (idle 1) (0 ∷ []) ≡ ok (q', st'))
    × HasShared q' (idle 1) st' letters (0 ∷ []) sizes
workreq_check-HasShared_example =
    workreq_check-HasShared machine 8 100 true 0 (idle 1) (0 ∷ []) (λ n. refl) room (omega arith)
      two_items-Holds (omega arith) (omega arith) refl
