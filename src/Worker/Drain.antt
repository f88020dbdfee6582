-- ===== src/Worker/Drain.antt =====
-- What a worker on a communicator of one rank does, in the user's words: it calls the user's function
-- until the queue is empty or the function aborts.
use libcircle.Prelude.{
  ℕ, zero, suc, ◌+◌, ◌<◌, ◌≤◌, ◌≡◌, refl, ◌∙◌, ap, Bool, true, false, ◌&&◌, not, some, List, [],
  ◌∷◌, All, arith, Bool-cases, inl, inr, ltb, ltb→lt, ltb→le, lt→ltb, length, if◌then◌else◌,
}
use libcircle.C.{ok, int_limit, Os}
use libcircle.Queue.{Queue}
use libcircle.State.{State}
use libcircle.Input.{Input, Callback}
use libcircle.Abort.{bcast_abort}
use libcircle.Abort.Rest.{bcast_abort_lem}
use libcircle.Worker.{Round, Work, process_item, process_or_end, work_round, work_rounds}
use libcircle.Worker.Alone.{
  IsQuiet, IsAlone, at, at-IsAlone, round-calm, round-flagged, ended, ended-IsAlone, ends-empty,
}

-- The calls of the user's function `cb` from one queue to another: how many there are, and whether
-- the last has aborted.
pub data Drains (cb : Callback) : Queue → ℕ → Bool → Queue → Type 0 where
  empty : {q : Queue} → q.count ≡ 0 → Drains cb q 0 false q
  stop : {q q' : Queue} → 0 < q.count → cb q ≡ ok (q', true) → Drains cb q 1 true q'
  item :
      {q q' q'' : Queue} {n : ℕ} {aborted : Bool}
      → 0 < q.count
      → cb q ≡ ok (q', false)
      → Drains cb q' n aborted q''
      → Drains cb q (suc n) aborted q''

-- The state after the calls.
pub record HasDrained (st : State) (n : ℕ) (aborted : Bool) (st' : State) : Type 0 where
  pub counted : st'.local_objects_processed ≡ st.local_objects_processed + n
  pub flag : st'.abort_flag ≡ aborted
  pub alone : IsAlone st'
  pub same_user : st'.user ≡ st.user

and-false : (a : Bool) → (a && not true) ≡ false
and-false true = refl
and-false false = refl

round-ends :
    (os : Os) (req_size : ℕ) (input : Input) (r : Round) (rounds : List Round) (w w' : Work)
    → work_round os req_size input r w ≡ ok (w', true)
    → work_rounds os req_size input (r ∷ rounds) w ≡ ok w'
unfolding work_rounds
round-ends os req_size input r rounds w w' e = rw e refl

round-goes :
    (os : Os) (req_size : ℕ) (input : Input) (r : Round) (rounds : List Round) (w w' : Work)
    → work_round os req_size input r w ≡ ok (w', false)
    → work_rounds os req_size input (r ∷ rounds) w ≡ work_rounds os req_size input rounds w'
unfolding work_rounds
round-goes os req_size input r rounds w w' e = rw e refl

-- The worker after one call of the user's function.
abbrev pub called : Work → Queue → Bool → Work
called w q aborts = record w {
  queue = q;
  state = at w.state (w.state.local_objects_processed + 1) aborts w.state.abort.active;
}

-- The flag after the call.
flagged :
    (st : State) (aborts : Bool)
    → st.abort_flag ≡ false
    → (if aborts then bcast_abort st else st) ≡ record st { abort_flag = aborts }
flagged st true f = bcast_abort_lem st
flagged st false f = ap (λ b. record st { abort_flag = b }) f

process_item-called :
    (input : Input) (cb : Callback) (w : Work) (q' : Queue) (aborts : Bool)
    → input.process_cb ≡ some cb
    → w.state.abort_flag ≡ false
    → cb w.queue ≡ ok (q', aborts)
    → w.state.local_objects_processed + 1 < int_limit
    → process_item input w ≡ ok (called w q' aborts)
unfolding process_item
process_item-called input cb w q' aborts p f e small =
    rw
      (p, e, flagged w.state aborts f, lt→ltb (w.state.local_objects_processed + 1) int_limit small)
      refl

has_item : (n : ℕ) (aborted : Bool) → 0 < n → aborted ≡ false → (ltb 0 n && not aborted) ≡ true
has_item n aborted h f = rw (lt→ltb 0 n h, f) refl

pub process-calls :
    (input : Input) (cb : Callback) (r : Round) (w : Work) (q' : Queue) (aborts : Bool)
    → input.process_cb ≡ some cb
    → 0 < w.queue.count
    → w.state.abort_flag ≡ false
    → cb w.queue ≡ ok (q', aborts)
    → w.state.local_objects_processed + 1 < int_limit
    → process_or_end input r w ≡ ok (called w q' aborts, false)
unfolding process_or_end
process-calls input cb r w q' aborts p h f e small =
    rw
      (
        has_item w.queue.count w.state.abort_flag h f,
        process_item-called input cb w q' aborts p f e small,
      )
      refl

-- On a communicator of one rank that uses the tree for termination and no reductions, with the abort
-- flag set, be it left over from an earlier run, the first loop ends at
-- once, whatever the queue holds: no item is processed, the queue is as it was, and the flag is set.
pub work_rounds-flagged :
    (os : Os) (req_size : ℕ) (input : Input) (rounds : List Round) (w : Work)
    → All IsQuiet rounds
    → 0 < length rounds
    → IsAlone w.state
    → w.state.abort_flag ≡ true
    → (st' : State) × (work_rounds os req_size input rounds w ≡ ok (record w { state = st' }))
      × HasDrained w.state 0 true st'
work_rounds-flagged os req_size input [] w h some_ a f = absurd (omega (arith, some_))
work_rounds-flagged os req_size input (r ∷ rounds) w (h, hs) some_ a f =
    let st = at w.state w.state.local_objects_processed true true in
    let a' = at-IsAlone w.state w.state.local_objects_processed true true a in
    (
      ended st,
      round-ends os req_size input r rounds w (record w { state = ended st })
          (round-flagged os req_size input r w h a f
            ∙ ends-empty input r (record w { state = st }) h a' (and-false (ltb 0 w.queue.count))),
      record { counted = omega arith; flag = refl; alone = ended-IsAlone st a'; same_user = refl },
    )

rounds-empty :
    (os : Os) (req_size : ℕ) (input : Input) (r : Round) (rounds : List Round) (w : Work)
    → IsQuiet r
    → IsAlone w.state
    → w.state.abort_flag ≡ false
    → w.queue.count ≡ 0
    → (st' : State) × (work_rounds os req_size input (r ∷ rounds) w ≡ ok (record w { state = st' }))
      × HasDrained w.state 0 false st'
rounds-empty os req_size input r rounds w h a f e = (
  ended w.state,
  round-ends os req_size input r rounds w (record w { state = ended w.state })
      (round-calm os req_size input r w h a f ∙ ends-empty input r w h a (rw e refl)),
  record { counted = omega arith; flag = f; alone = ended-IsAlone w.state a; same_user = refl },
)

-- On a communicator of one rank that uses the tree for termination and no reductions, the first loop
-- of the worker calls the user's function exactly as often as it takes to empty the queue, or up to
-- the call that aborts, and leaves the queue that these calls leave; it counts the calls, and ends
-- with the abort flag set exactly where a call has aborted. One round more than there are calls is
-- enough. No abort is under way at the start, and the count fits an int.
pub work_rounds-drain :
    (os : Os) (req_size : ℕ) (input : Input) (cb : Callback) (rounds : List Round) (w : Work)
    (n : ℕ) (aborted : Bool) (q' : Queue)
    → input.process_cb ≡ some cb
    → IsAlone w.state
    → w.state.abort_flag ≡ false
    → All IsQuiet rounds
    → n < length rounds
    → w.state.local_objects_processed + n < int_limit
    → Drains cb w.queue n aborted q'
    → (st' : State) × (work_rounds os req_size input rounds w
        ≡ ok (record w { queue = q'; state = st' }))
      × HasDrained w.state n aborted st'
work_rounds-drain os req_size input cb [] w n aborted q' p a f h enough small d =
    absurd (omega (arith, enough))
work_rounds-drain os req_size input cb (r ∷ rounds) w n aborted q' p a f (h, hs) enough small
      (empty e) =
    rounds-empty os req_size input r rounds w h a f e
work_rounds-drain os req_size input cb (r ∷ rounds) w n aborted q' p a f (h, hs) enough small
      (stop some_ e) =
    let w1 = called w q' true in
    let step = round-goes os req_size input r rounds w w1 (
      round-calm os req_size input r w h a f
      ∙ process-calls input cb r w q' true p some_ f e small) in
    let a1 = at-IsAlone w.state (w.state.local_objects_processed + 1) true w.state.abort.active a in
    let (st', run, d) =
      work_rounds-flagged os req_size input rounds w1 hs (omega (arith, enough)) a1 refl in
    (
      st',
      step ∙ run,
      record {
        counted = omega (arith, d.counted);
        flag = d.flag;
        alone = d.alone;
        same_user = d.same_user;
      },
    )
work_rounds-drain os req_size input cb (r ∷ rounds) w n aborted q' p a f (h, hs) enough small
      (item {q' = q1} {n = m} some_ e rest) =
    let w1 = called w q1 false in
    let step = round-goes os req_size input r rounds w w1 (
      round-calm os req_size input r w h a f
      ∙ process-calls input cb r w q1 false p some_ f e (omega (arith, small))) in
    let a1 =
      at-IsAlone w.state (w.state.local_objects_processed + 1) false w.state.abort.active a in
    let (st', run, d) =
      work_rounds-drain os req_size input cb rounds w1 m aborted q' p a1 refl hs
        (omega (arith, enough)) (omega (arith, small)) rest in
    (
      st',
      step ∙ run,
      record {
        counted = omega (arith, d.counted);
        flag = d.flag;
        alone = d.alone;
        same_user = d.same_user;
      },
    )

-- A function that on each queue of a kind `P` that is not empty returns without an abort, with a queue
-- of that kind of smaller measure.
abbrev pub Shrinks : Callback → (Queue → Type 0) → (Queue → ℕ) → Type 0
Shrinks cb P measure =
    (q : Queue)
    → P q
    → 0 < q.count
    → (q' : Queue) × (cb q ≡ ok (q', false)) × P q' × (measure q' < measure q)

-- Its calls come to an end, at an empty queue.
pub Shrinks-drain :
    (cb : Callback) (P : Queue → Type 0) (measure : Queue → ℕ) (bound : ℕ) (q : Queue)
    → Shrinks cb P measure
    → P q
    → measure q ≤ bound
    → (n : ℕ) × (q' : Queue) × Drains cb q n false q' × (n ≤ bound) × P q' × (q'.count ≡ 0)
Shrinks-drain cb P measure zero q s p le = elim (Bool-cases (ltb 0 q.count)) [
  | inr none_ ↦
      let e : q.count ≡ 0 = omega (arith, ltb→le 0 q.count none_) in
      (0, q, empty e, omega arith, p, e)
  | inl some_ ↦
      let (q', run, p', less) = s q p (ltb→lt 0 q.count some_) in absurd (omega (arith, less, le))
]
Shrinks-drain cb P measure (suc bound) q s p le = elim (Bool-cases (ltb 0 q.count)) [
  | inr none_ ↦
      let e : q.count ≡ 0 = omega (arith, ltb→le 0 q.count none_) in
      (0, q, empty e, omega arith, p, e)
  | inl some_ ↦
      let h = ltb→lt 0 q.count some_ in
      let (q', run, p', less) = s q p h in
      let (n, q'', d, few, p'', e) =
        Shrinks-drain cb P measure bound q' s p' (omega (arith, less, le)) in
      (suc n, q'', item h run d, omega (arith, few), p'', e)
]
