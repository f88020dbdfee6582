-- ===== src/Examples/Alarms.antt =====
-- Two ranks: a user of the first sets its flag, and the abort reaches the second.
use mathlib.Core.List.{Memᴰ}
use native.Mathlib.Decide.{ℕ_discrete}
use libcircle.Prelude.{
  ℕ, zero, suc, ◌+◌, ◌*◌, ◌<◌, ◌≡◌, refl, true, false, none, some, [], ◌∷◌, arith,
}
use libcircle.C.{ok}
use libcircle.Sends.{Payload}
use libcircle.State.{Tag, Post, AbortState, State}
use libcircle.Abort.{
  bcast_abort, request_abort, request_children, request_parent, spread_abort, abort_start,
  abort_answer, abort_drain, abort_check,
}
use libcircle.Abort.Spread.{HasNeighbours}
use libcircle.Abort.Alarm.Told.{request_to, HasAsked}
use libcircle.Abort.Alarm.{Alarm, Reach, start, later, raise, check, obey, IsStart, IsStill}
use libcircle.Abort.Alarm.Reached.{Reach-reached}
use libcircle.Examples.Flows.{nodes, nodes-IsNode, only_child}
use libcircle.Examples.Sample.{idle}

abbrev ranks : ℕ → State
ranks i = record (idle i) {
  tree = nodes i;
  abort_flag = false;
  abort = record { active = false; outstanding = false; num_req = 2 };
  posted = [];
}

abbrev calm : Alarm
calm = record { rank = ranks; taken = λ _ _. false }

ranks-HasNeighbours : (i : ℕ) → i < 2 → HasNeighbours (ranks i) (i * 1 + 1)
ranks-HasNeighbours zero lt = record { room = omega arith; child = only_child }
ranks-HasNeighbours (suc zero) lt = record {
  room = omega arith;
  child = λ j h. absurd (omega arith);
}
ranks-HasNeighbours (suc (suc i)) lt = absurd (omega arith)

calm-IsStart : IsStart 2 1 calm
calm-IsStart = record {
  node = nodes-IsNode;
  neighbours = ranks-HasNeighbours;
  quiet = λ i lt. refl;
  fresh = λ i j lt. refl;
}

-- The two ranks when each has asked the other.
abbrev aborting : AbortState
aborting = record { active = true; outstanding = true; num_req = 2 }

abbrev raised : State
raised = record (ranks 0) { abort_flag = true }

abbrev asking : State
asking = record raised { abort = aborting; posted = request_to 1 ∷ [] }

abbrev reply_to : ℕ → Post
reply_to j = record { dest = j; tag = Tag.abort_reply; payload = Payload.empty }

abbrev second : State
second = record (ranks 1) {
  abort_flag = true;
  abort = aborting;
  posted = reply_to 0 ∷ request_to 0 ∷ [];
}

abbrev first : State
first = record asking { posted = request_to 1 ∷ reply_to 1 ∷ [] }

raises : bcast_abort (ranks 0) ≡ raised
unfolding bcast_abort
raises = refl

asks : abort_check raised false none false ≡ ok asking
unfolding request_abort request_children request_parent spread_abort abort_start abort_answer
    abort_drain abort_check
asks = refl

obeys : abort_check (ranks 1) false (some 0) false ≡ ok second
unfolding request_abort request_children request_parent spread_abort abort_start abort_answer
    abort_drain abort_check
obeys = refl

replies : abort_check asking false (some 1) false ≡ ok first
unfolding abort_start abort_answer abort_drain abort_check
replies = refl

at_first : 0 < 2
at_first = omega arith

at_second : 1 < 2
at_second = omega arith

-- The first rank asks the second, which asks it in turn.
abbrev spread : (s : Alarm) × Reach 2 calm s
unfolding ℕ_discrete bcast_abort
spread =
    let r1 = later start (raise 0 at_first) in
    let r2 = later r1 (check 0 false asking at_first asks) in
    let r3 = later r2 (obey 1 0 false second at_second at_first (Memᴰ.head refl) refl obeys) in
    (
      _,
      later r3 (obey 0 1 false first at_first at_second (Memᴰ.tail (Memᴰ.head refl)) refl replies),
    )

first_asks : HasAsked first 0 → ⊥
first_asks (Memᴰ.head e) = cc e
first_asks (Memᴰ.tail (Memᴰ.head e)) = cc e
first_asks (Memᴰ.tail (Memᴰ.tail m)) = elim m [ ]

second_asks : HasAsked second 1 → ⊥
second_asks (Memᴰ.head e) = cc e
second_asks (Memᴰ.tail (Memᴰ.head e)) = cc e
second_asks (Memᴰ.tail (Memᴰ.tail m)) = elim m [ ]

spread-arrived :
    (i j : ℕ) → i < 2 → j < 2 → HasAsked (spread.0.rank j) i → spread.0.taken i j ≡ true
unfolding ℕ_discrete spread
spread-arrived zero zero lt lt' h = absurd (first_asks h)
spread-arrived zero (suc zero) lt lt' h = refl
spread-arrived (suc zero) zero lt lt' h = refl
spread-arrived (suc zero) (suc zero) lt lt' h = absurd (second_asks h)
spread-arrived (suc (suc i)) j lt lt' h = absurd (omega arith)
spread-arrived zero (suc (suc j)) lt lt' h = absurd (omega arith)
spread-arrived (suc zero) (suc (suc j)) lt lt' h = absurd (omega arith)

spread-checked :
    (i : ℕ) → i < 2 → (spread.0.rank i).abort_flag ≡ true → (spread.0.rank i).abort.active ≡ true
unfolding ℕ_discrete bcast_abort spread
spread-checked zero lt f = refl
spread-checked (suc zero) lt f = refl
spread-checked (suc (suc i)) lt f = absurd (omega arith)

spread-IsStill : IsStill 2 spread.0
spread-IsStill = record { arrived = spread-arrived; checked = spread-checked }

Reach-reached_example :
    ((spread.0.rank 1).abort_flag ≡ true) × ((spread.0.rank 1).abort.active ≡ true)
unfolding ℕ_discrete bcast_abort spread
Reach-reached_example =
    Reach-reached 0 (omega arith) calm-IsStart spread.1 spread-IsStill (omega arith) refl 1
      (omega arith)
