-- ===== src/Worker/Steps.antt =====
-- What no round of the two loops of the worker changes, whatever messages it finds.
use libcircle.Prelude.{
  ℕ, ◌+◌, ◌≤◌, ◌≡◌, refl, sym, ◌∙◌, Bool, true, false, ◌&&◌, not, arith, if◌then◌else◌, ltb, ◌==◌,
}
use libcircle.C.{ok, require, deref, int_limit, Os}
use libcircle.C.Every.{Every, Every-bind, Every-after, Every-if, Every-test, Every-ok, Every-weaken}
use libcircle.State.{State}
use libcircle.State.Keeps.{Keeps}
use libcircle.Input.{Input}
use libcircle.Abort.{bcast_abort}
use libcircle.Abort.Rest.{bcast_abort_lem}
use libcircle.Worker.Keeps.{
  KeepsWork, Keeps-after, serve-Keeps, progress-Keeps, fetch-Keeps, watch-Keeps, term_status-Keeps,
  cleanup_round-Keeps,
}
use libcircle.Worker.{
  Round, Work, progress, serve, fetch, watch, process_item, term_status, process_or_end, work_round,
}
use libcircle.Worker.Cleanup.{cleanup_round}

-- What a rank leaves as it is in the first loop: its place among the ranks, and once the abort flag is
-- set, the flag and the count of the items processed; the count never falls.
abbrev pub Moves : State → State → Type 0
Moves st st' =
    (st'.rank ≡ st.rank)
    × (st'.size ≡ st.size)
    × (st'.tree ≡ st.tree)
    × (st.local_objects_processed ≤ st'.local_objects_processed)
    × (st.abort_flag ≡ true
        → (st'.abort_flag ≡ true) × (st'.local_objects_processed ≡ st.local_objects_processed))

abbrev MovesWork : Work → Work → Type 0
MovesWork w w' = Moves w.state w'.state

Keeps-Moves : (a b c : State) → Keeps a b → Moves b c → Moves a c
Keeps-Moves a b c (r, s, t, n, f) (r', s', t', le, f') =
    (r' ∙ r, s' ∙ s, t' ∙ t, omega (arith, n, le), λ e. let (g, n') = f' (f e) in (g, n' ∙ n))

Moves-trans : (a b c : State) → Moves a b → Moves b c → Moves a c
Moves-trans a b c (r, s, t, le, f) (r', s', t', le', f') = (
  r' ∙ r,
  s' ∙ s,
  t' ∙ t,
  omega (arith, le, le'),
  λ e. let (g, n) = f e in let (g', n') = f' g in (g', n' ∙ n),
)

moves : (st : State) → Moves st st
moves st = (refl, refl, refl, omega arith, λ e. (e, refl))

not-flagged : (a f : Bool) → (a && not f) ≡ true → f ≡ false
not-flagged true false e = refl
not-flagged true true e = sym e
not-flagged false f e = cc e

-- One more item.
counted-Moves :
    (st : State) (aborts : Bool)
    → st.abort_flag ≡ false
    → let st1 = if aborts then bcast_abort st else st in
      Moves st (record st1 { local_objects_processed = st1.local_objects_processed + 1 })
counted-Moves st true calm =
    rw (bcast_abort_lem st) (refl, refl, refl, omega arith, λ e. cc (e, calm))
counted-Moves st false calm = (refl, refl, refl, omega arith, λ e. cc (e, calm))

process_item-Moves :
    (input : Input) (w : Work)
    → w.state.abort_flag ≡ false
    → Every (MovesWork w) (process_item input w)
unfolding process_item Every
process_item-Moves input w calm = Every-after (MovesWork w) (deref input.process_cb) _ λ cb.
    Every-after (MovesWork w) (cb w.queue) _ λ (q, aborts).
      (let st = if aborts then bcast_abort w.state else w.state in
        Every-after (MovesWork w) (require (ltb (st.local_objects_processed + 1) int_limit))
          (λ u. ok (record w {
            queue = q;
            state = record st { local_objects_processed = st.local_objects_processed + 1 };
          }))
          λ u. counted-Moves w.state aborts calm)

process_or_end-Moves :
    (input : Input) (r : Round) (w : Work) → Every (λ a. MovesWork w a.0) (process_or_end input r w)
unfolding process_or_end Every
process_or_end-Moves input r w =
    let P = λ (a : Work × Bool). MovesWork w a.0 in
    Every-test P (ltb 0 w.queue.count && not w.state.abort_flag) _ _
      (λ e.
        Every-bind (MovesWork w) P (process_item input w) _
          (process_item-Moves input w (not-flagged (ltb 0 w.queue.count) w.state.abort_flag e))
          λ w' m. m)
      (λ e.
        Every-bind (λ a. Keeps w.state a.0) P (term_status r w.state) _
          (term_status-Keeps r w.state) λ (st, color) k. Keeps-Moves w.state st st k (moves st))

-- A round of the first loop.
work_round-Moves :
    (os : Os) (req_size : ℕ) (input : Input) (r : Round) (w : Work)
    → Every (λ a. MovesWork w a.0) (work_round os req_size input r w)
unfolding work_round Every
work_round-Moves os req_size input r w =
    let P = λ (a : Work × Bool). MovesWork w a.0 in
    Every-bind (KeepsWork w) P (serve os req_size input false r w) _
      (serve-Keeps os req_size input false r w)
      λ w1 k1.
        Every-bind (KeepsWork w) P (watch false r w1) _
          (Keeps-after w w1 (watch false r w1) k1 (watch-Keeps false r w1))
          λ w2 k2.
            Every-bind (KeepsWork w) P (progress os input false r w2) _
              (Keeps-after w w2 (progress os input false r w2) k2
                (progress-Keeps os input false r w2))
              λ w3 k3.
                Every-bind (KeepsWork w) P
                  (if w3.queue.count == 0 then fetch os req_size false r w3 else ok w3) _
                  (Every-if (KeepsWork w) (w3.queue.count == 0) (fetch os req_size false r w3)
                    (ok w3)
                    (Keeps-after w w3 (fetch os req_size false r w3) k3
                      (fetch-Keeps os req_size false r w3))
                    k3)
                  λ w4 k4.
                    Every-weaken (λ a. MovesWork w4 a.0) P (process_or_end input r w4)
                      (process_or_end-Moves input r w4)
                      λ a m. Keeps-Moves w.state w4.state a.0.state k4 m

-- The rounds of a worker, of either loop, with whatever messages each of them finds.
pub data Steps (os : Os) (req_size : ℕ) (input : Input) : Work → Work → Type 0 where
  rest : {w : Work} → Steps os req_size input w w
  work :
      {w w1 w2 : Work} (r : Round) {ends : Bool}
      → work_round os req_size input r w ≡ ok (w1, ends)
      → Steps os req_size input w1 w2
      → Steps os req_size input w w2
  clean :
      {w w1 w2 : Work} (r : Round) {ends : Bool}
      → cleanup_round os req_size input r w ≡ ok (w1, ends)
      → Steps os req_size input w1 w2
      → Steps os req_size input w w2

pub Steps-Moves :
    (os : Os) (req_size : ℕ) (input : Input) (w w' : Work)
    → Steps os req_size input w w'
    → Moves w.state w'.state
unfolding Every
Steps-Moves os req_size input w w' rest = moves w.state
Steps-Moves os req_size input w w' (work {w1 = w1} r e s) =
    Moves-trans w.state w1.state w'.state
      (Every-ok (λ a. MovesWork w a.0) (work_round-Moves os req_size input r w) e)
      (Steps-Moves os req_size input w1 w' s)
Steps-Moves os req_size input w w' (clean {w1 = w1} r e s) =
    Keeps-Moves w.state w1.state w'.state
      (Every-ok (λ a. KeepsWork w a.0) (cleanup_round-Keeps os req_size input r w) e)
      (Steps-Moves os req_size input w1 w' s)
