-- ===== src/Worker/Keeps.antt =====
-- The calls of the worker keep what `Keeps` names, all but that of the user's function.
use libcircle.Prelude.{ℕ, Bool, true, false, if◌then◌else◌}
use libcircle.C.{Run, ok, ◌>>=◌, Os}
use libcircle.C.Every.{Every, Every-bind, Every-after, Every-if, Every-weaken}
use libcircle.Sends.{check}
use libcircle.State.{State}
use libcircle.State.Keeps.{Keeps, keeps, Keeps-trans, Keeps-if}
use libcircle.Input.{Input, split_equal, has_option}
use libcircle.Token.Keeps.{token_check-Keeps, check_for_term-Keeps}
use libcircle.Collective.{barrier_start, barrier_test, check_for_term_allreduce}
use libcircle.Collective.Keeps.{allreduce-Keeps, barrier_test-Keeps}
use libcircle.Transfer.Keeps.{KeepsSecond, KeepsLast}
use libcircle.Request.{request_work, workreceipt_check, workreq_check}
use libcircle.Request.Keeps.{request_work-Keeps, workreceipt_check-Keeps, workreq_check-Keeps}
use libcircle.Abort.{abort_check}
use libcircle.Abort.Keeps.{abort_check-Keeps}
use libcircle.Reduction.{reduce_check}
use libcircle.Reduction.Keeps.{KeepsFirst, reduce_check-Keeps}
use libcircle.Worker.{Round, Work, callbacks, progress, serve, fetch, watch, term_status}
use libcircle.Worker.Cleanup.{is_settled, drain_token, clean_up, cleanup_round}

-- The same for the state of a worker.
abbrev pub KeepsWork : Work → Work → Type 0
KeepsWork w w' = Keeps w.state w'.state

pub serve-Keeps :
    (os : Os) (req_size : ℕ) (input : Input) (cleanup : Bool) (r : Round) (w : Work)
    → Every (KeepsWork w) (serve os req_size input cleanup r w)
unfolding serve Every
serve-Keeps os req_size input cleanup r w =
    Every-bind (KeepsLast w.state) (KeepsWork w)
      (workreq_check os req_size (has_option input.options split_equal) cleanup r.rand w.queue
        w.state r.requestors)
      _
      (workreq_check-Keeps os req_size (has_option input.options split_equal) cleanup r.rand w.queue
        w.state r.requestors)
      λ (q, st1) k1.
        let st2 = if cleanup then st1 else workreceipt_check st1 r.receipts in
        let k2 =
          Keeps-if cleanup st1 st1 (workreceipt_check st1 r.receipts) (keeps st1)
            (workreceipt_check-Keeps st1 r.receipts) in
        Every-after (KeepsWork w) (check r.done st2.sends) _
          λ (sends, freed). Keeps-trans w.state st1 st2 k1 k2

pub progress-Keeps :
    (os : Os) (input : Input) (cleanup : Bool) (r : Round) (w : Work)
    → Every (KeepsWork w) (progress os input cleanup r w)
unfolding progress Every
progress-Keeps os input cleanup r w =
    let st = w.state in
    Every-if (KeepsWork w) st.reduce.enabled _ (ok w)
      (Every-bind (KeepsFirst st) (KeepsWork w)
        (reduce_check os (callbacks input) st st.local_objects_processed cleanup r.due r.kicked
          r.found)
        _
        (reduce_check-Keeps os (callbacks input) st st.local_objects_processed cleanup r.due
          r.kicked r.found)
        λ (st', delivery) k. k)
      (keeps st)

pub fetch-Keeps :
    (os : Os) (req_size : ℕ) (cleanup : Bool) (r : Round) (w : Work)
    → Every (KeepsWork w) (fetch os req_size cleanup r w)
unfolding fetch Every
fetch-Keeps os req_size cleanup r w =
    Every-bind (KeepsSecond w.state) (KeepsWork w)
      (request_work os req_size cleanup r.tested r.reply r.draws w.queue w.state) _
      (request_work-Keeps os req_size cleanup r.tested r.reply r.draws w.queue w.state)
      λ (q, st, rc) k. k

pub watch-Keeps : (cleanup : Bool) (r : Round) (w : Work) → Every (KeepsWork w) (watch cleanup r w)
unfolding watch Every
watch-Keeps cleanup r w =
    Every-bind (Keeps w.state) (KeepsWork w)
      (abort_check w.state cleanup r.abort_request r.abort_done) _
      (abort_check-Keeps w.state cleanup r.abort_request r.abort_done) λ st k. k

-- One call after another.
pub Keeps-after :
    (a b : Work) (m : Run Work) → KeepsWork a b → Every (KeepsWork b) m → Every (KeepsWork a) m
Keeps-after a b m k h =
    Every-weaken (KeepsWork b) (KeepsWork a) m h λ c k'. Keeps-trans a.state b.state c.state k k'

pub term_status-Keeps : (r : Round) (st : State) → Every (λ a. Keeps st a.0) (term_status r st)
unfolding term_status Every
term_status-Keeps r st =
    Every-if (λ a. Keeps st a.0) st.term_tree_enabled (check_for_term_allreduce st r.flags r.result)
      _ (allreduce-Keeps st r.flags r.result) (check_for_term-Keeps st r.token)

drain_token-Keeps : (r : Round) (st : State) → Keeps st (drain_token r st)
unfolding drain_token
drain_token-Keeps r st =
    Keeps-if st.term_tree_enabled st st _ (keeps st) (token_check-Keeps st r.token)

clean_up-Keeps :
    (os : Os) (req_size : ℕ) (input : Input) (r : Round) (w : Work)
    → Every (KeepsWork w) (clean_up os req_size input r w)
unfolding clean_up Every
clean_up-Keeps os req_size input r w =
    Every-bind (KeepsWork w) (KeepsWork w) (serve os req_size input true r w) _
      (serve-Keeps os req_size input true r w)
      λ w1 k1.
        Every-bind (KeepsWork w) (KeepsWork w) (progress os input true r w1) _
          (Keeps-after w w1 (progress os input true r w1) k1 (progress-Keeps os input true r w1))
          λ w2 k2.
            Every-bind (KeepsWork w) (KeepsWork w) (fetch os req_size true r w2) _
              (Keeps-after w w2 (fetch os req_size true r w2) k2
                (fetch-Keeps os req_size true r w2))
              λ w3 k3.
                Every-bind (KeepsWork w) (KeepsWork w) (watch true r w3) _
                  (Keeps-after w w3 (watch true r w3) k3 (watch-Keeps true r w3))
                  λ w4 k4.
                    Keeps-trans w.state w4.state (drain_token r w4.state) k4
                      (drain_token-Keeps r w4.state)

ends-Keeps :
    (os : Os) (req_size : ℕ) (input : Input) (r : Round) (w w1 : Work) (passed : Bool)
    → KeepsWork w w1
    → Every
        (λ (a : Work × Bool). KeepsWork w a.0)
        (elim passed [
          | true ↦ ok (w1, true)
          | false ↦ clean_up os req_size input r w1 >>= λ w2. ok (w2, false)
        ])
unfolding Every
ends-Keeps os req_size input r w w1 true k = k
ends-Keeps os req_size input r w w1 false k =
    Every-bind (KeepsWork w) (λ a. KeepsWork w a.0) (clean_up os req_size input r w1) _
      (Keeps-after w w1 (clean_up os req_size input r w1) k (clean_up-Keeps os req_size input r w1))
      λ w2 k2. k2

barrier_start-Keeps : (b : Bool) (st : State) → Keeps st (if b then barrier_start st else st)
barrier_start-Keeps b st =
    Keeps-if b st (barrier_start st) st (libcircle.Collective.Keeps.barrier_start-Keeps st)
      (keeps st)

-- A round of the second loop.
pub cleanup_round-Keeps :
    (os : Os) (req_size : ℕ) (input : Input) (r : Round) (w : Work)
    → Every (λ a. KeepsWork w a.0) (cleanup_round os req_size input r w)
unfolding cleanup_round Every
cleanup_round-Keeps os req_size input r w =
    let st = if is_settled w.state then barrier_start w.state else w.state in
    let k0 = barrier_start-Keeps (is_settled w.state) w.state in
    Every-bind (λ a. Keeps st a.0) (λ a. KeepsWork w a.0) (barrier_test st r.arrived r.released) _
      (barrier_test-Keeps st r.arrived r.released)
      λ (st', passed) k.
        let w1 = record w { state = st' } in
        let k1 = Keeps-trans w.state st st' k0 k in ends-Keeps os req_size input r w w1 passed k1
