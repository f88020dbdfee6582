-- ===== src/Examples/Transfers.antt =====
-- Transfers of work at concrete inputs.
use libcircle.Prelude.{◌≡◌, ◌<◌, ◌≤◌, refl, ℕ, ℤ, pos, List, arith, drop, take}
use libcircle.C.{ok, int_limit}
use libcircle.Queue.{Queue}
use libcircle.Queue.Rep.{Holds}
use libcircle.State.{State}
use libcircle.Transfer.{send_work, blacken, shrink}
use libcircle.Transfer.Packet.{IsPacket}
use libcircle.Transfer.Send.{Sent, send_work-Sent}
use libcircle.Transfer.Span.{width, shrink_lem}
use libcircle.Receive.Accept.{Transferred, transfer-Holds}
use libcircle.Examples.Sample.{
  machine, letters, two_items, two_items-Holds, no_items, no_sends-IsTracked, idle, idle-IsWaiting,
}

transfer-Holds_example :
    Transferred machine machine 8 two_items no_items (idle 0) (idle 1) 1 2 letters
transfer-Holds_example =
    transfer-Holds machine machine 8 (idle 0) (idle 1) 1 2 (λ n. refl) no_sends-IsTracked
      (omega arith) two_items-Holds (omega arith) (omega arith) idle-IsWaiting

send_work-Sent_example :
    (m : ℕ) × (header : List ℤ) × (bytes : List ℕ) × (q' : Queue) × (st' : State) × (0 < m)
    × (m ≤ 1)
    × (send_work machine 8 two_items (idle 0) 1 1 ≡ ok (q', st', pos 0))
    × Holds q' (drop m letters)
    × Sent (blacken (idle 0) 1) 1 header bytes st'
    × IsPacket (take m letters) header bytes
send_work-Sent_example =
    send_work-Sent machine 8 (idle 0) 1 1 (λ n. refl) no_sends-IsTracked (omega arith)
      two_items-Holds (omega arith) (omega arith)

shrink_lem_example :
    (m : ℕ) × (shrink 2 two_items 2 (width two_items-Holds 2) ≡ ok (m, width two_items-Holds m))
    × (0 < m)
    × (m ≤ 2)
    × (width two_items-Holds m < int_limit)
shrink_lem_example = shrink_lem two_items-Holds 2 2 (omega arith) (omega arith) (omega arith)
