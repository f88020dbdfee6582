-- ===== src/Examples/Rings.antt =====
-- The ring of the token and a request for work at concrete inputs.
use libcircle.Prelude.{◌≡◌, ◌⊎◌, refl, pos, true, false, some, none, [], ◌∷◌, arith, All}
use libcircle.C.{ok}
use libcircle.State.{Color, State}
use libcircle.Token.Lap.{lap, any_black, gathered, IsIdle, lap-gathers}
use libcircle.Token.Round.{IsMaster, InOrder, AllStop, round, round-terminates}
use libcircle.Request.{request_work}
use libcircle.Request.Ask.{Hits, Asked, request_work-Asked}
use libcircle.Examples.Sample.{machine, two_items, idle}

-- The first rank with the token, and a second rank that has given work away.
abbrev master : State
master = record (idle 0) { token = record ((idle 0).token) { is_local = true } }

abbrev giver : State
giver = record (idle 1) { token = record ((idle 1).token) { proc = Color.black } }

master-IsMaster : IsMaster master
master-IsMaster = record { first = refl; running = refl; holds = refl; no_abort = refl }

giver-IsIdle : IsIdle giver
giver-IsIdle = record { not_first = omega arith; running = refl; waiting = refl; no_abort = refl }

lap-gathers_example :
    ((lap (giver ∷ []) Color.white).1 ≡ gathered (any_black (giver ∷ [])) Color.white)
    × All IsIdle (lap (giver ∷ []) Color.white).0
    × (any_black (lap (giver ∷ []) Color.white).0 ≡ false)
lap-gathers_example = lap-gathers (giver ∷ []) Color.white (giver-IsIdle, tt) refl

round-terminates_example :
    ((any_black (giver ∷ []) ≡ false) × AllStop (round master (giver ∷ [])))
    ⊎ ((any_black (giver ∷ []) ≡ true)
        × ((round master (giver ∷ [])).1 ≡ Color.white)
        × AllStop (round (round master (giver ∷ [])).0 (round master (giver ∷ [])).2))
unfolding InOrder
round-terminates_example =
    round-terminates master (giver ∷ []) master-IsMaster (giver-IsIdle, tt) (refl, refl, refl)

-- A rank of two that may ask the other.
abbrev asker : State
asker = record (idle 0) { next_processor = some 1 }

request_work-Asked_example :
    (st' : State) × (request_work machine 8 false false none (4 ∷ 7 ∷ []) two_items asker
      ≡ ok (two_items, st', pos 0))
    × Asked machine 8 two_items asker 1 st'
request_work-Asked_example =
    request_work-Asked machine 8 false none (4 ∷ 7 ∷ []) two_items asker
      (record {
        several = omega arith;
        no_abort = refl;
        not_asked = refl;
        nothing_sent = refl;
        picked = refl;
      })
      (Hits.later (Hits.here (omega arith)))
