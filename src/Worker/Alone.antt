-- ===== src/Worker/Alone.antt =====
-- The calls that a worker makes in a round, on a communicator of one rank that uses the tree for
-- termination and has no reductions.
use libcircle.Prelude.{
  same-branches, ℕ, ◌+◌, ◌<◌, ◌≡◌, refl, ◌∙◌, ap, Bool, true, false, ◌&&◌, not, none, some, [], ◌∷◌,
  ◌++◌, arith, get_elem?, ltb, if◌then◌else◌,
}
use libcircle.C.{ok, Os}
use libcircle.Sends.Reap.{check-none}
use libcircle.State.{Tag, Color, State}
use libcircle.Input.{Input}
use libcircle.Request.Rest.{workreq_check-none, workreceipt_check-none, request_work-nobody}
use libcircle.Sends.{Payload}
use libcircle.Collective.{int_of, check_for_term_allreduce}
use libcircle.Collective.Down.{messages}
use libcircle.Collective.Reduce.{conjunction, IsFresh, allreduce-root}
use libcircle.Abort.Rest.{abort_check-calm, abort_check-alone}
use libcircle.Worker.{
  Round, Work, progress, serve, fetch, watch, term_status, process_or_end, work_round,
}

-- No message is there: there is no other rank to send one.
pub record IsQuiet (r : Round) : Type 0 where
  pub no_request : r.requestors ≡ []
  pub no_receipt : r.receipts ≡ 0
  pub no_abort : r.abort_request ≡ none
  pub no_flag : r.flags ≡ []

-- A rank that has no other to talk to, and nothing under way.
pub record IsAlone (st : State) : Type 0 where
  pub root : st.tree.parent_rank ≡ none
  pub leaf : st.tree.children ≡ 0
  pub nobody : st.next_processor ≡ none
  pub no_sends : st.sends.slots ≡ []
  pub not_asked : st.work_requested ≡ false
  pub nothing_sent : st.request_pending ≡ false
  pub no_token : st.token.sending ≡ false
  pub by_tree : st.term_tree_enabled ≡ true
  pub no_transfer : st.work_outstanding ≡ 0
  pub term_flag : st.term.flag ≡ true
  pub term_down : st.term.up ≡ false
  pub term_none : st.term.replies ≡ 0
  pub no_reduction : st.reduce.enabled ≡ false
  pub reduced : st.reduce.outstanding ≡ false
  pub no_alarm : st.abort.outstanding ≡ false
  pub barrier_up : st.barrier.up ≡ false
  pub barrier_none : st.barrier.replies ≡ 0

-- The rank with other values of what changes in a run.
abbrev pub at : State → (processed : ℕ) → (aborted active : Bool) → State
at st processed aborted active = record st {
  local_objects_processed = processed;
  abort_flag = aborted;
  abort = record (st.abort) { active = active };
}

pub at-IsAlone :
    (st : State) (processed : ℕ) (aborted active : Bool)
    → IsAlone st
    → IsAlone (at st processed aborted active)
at-IsAlone st processed aborted active h = record {
  root = h.root;
  leaf = h.leaf;
  nobody = h.nobody;
  no_sends = h.no_sends;
  not_asked = h.not_asked;
  nothing_sent = h.nothing_sent;
  no_token = h.no_token;
  by_tree = h.by_tree;
  no_transfer = h.no_transfer;
  term_flag = h.term_flag;
  term_down = h.term_down;
  term_none = h.term_none;
  no_reduction = h.no_reduction;
  reduced = h.reduced;
  no_alarm = h.no_alarm;
  barrier_up = h.barrier_up;
  barrier_none = h.barrier_none;
}

pub serve-quiet :
    (os : Os) (req_size : ℕ) (input : Input) (r : Round) (w : Work)
    → IsQuiet r
    → w.state.sends.slots ≡ []
    → serve os req_size input false r w ≡ ok w
unfolding serve
serve-quiet os req_size input r w h e =
    rw
      (
        h.no_request,
        workreq_check-none,
        h.no_receipt,
        workreceipt_check-none,
        check-none r.done w.state.sends e,
      )
      refl

pub progress-none :
    (os : Os) (input : Input) (cleanup : Bool) (r : Round) (w : Work)
    → w.state.reduce.enabled ≡ false
    → progress os input cleanup r w ≡ ok w
unfolding progress
progress-none os input cleanup r w e = simp (e)

-- A rank without an abort sees nothing.
pub watch-calm :
    (r : Round) (w : Work)
    → IsQuiet r
    → w.state.abort_flag ≡ false
    → w.state.abort.outstanding ≡ false
    → watch false r w ≡ ok w
unfolding watch
watch-calm r w h f o = rw (h.no_abort, abort_check-calm w.state r.abort_done f o) refl

-- A rank with the flag of an abort enters the abort state.
pub watch-abort :
    (r : Round) (w : Work)
    → IsQuiet r
    → IsAlone w.state
    → w.state.abort_flag ≡ true
    → watch false r w
      ≡ ok (record w { state = at w.state w.state.local_objects_processed true true })
unfolding watch
watch-abort r w h a f =
    rw (h.no_abort, abort_check-alone w.state r.abort_done f a.root a.leaf a.no_alarm) refl

pub fetch-nobody :
    (os : Os) (req_size : ℕ) (cleanup : Bool) (r : Round) (w : Work)
    → IsAlone w.state
    → fetch os req_size cleanup r w ≡ ok w
unfolding fetch
fetch-nobody os req_size cleanup r w h =
    rw
      (request_work-nobody os req_size cleanup r.tested r.reply r.draws w.queue w.state
        h.nothing_sent h.not_asked h.nobody)
      refl

-- A round without an abort comes to the last step.
pub round-calm :
    (os : Os) (req_size : ℕ) (input : Input) (r : Round) (w : Work)
    → IsQuiet r
    → IsAlone w.state
    → w.state.abort_flag ≡ false
    → work_round os req_size input r w ≡ process_or_end input r w
unfolding work_round
round-calm os req_size input r w h a f =
    rw
      (
        serve-quiet os req_size input r w h a.no_sends,
        watch-calm r w h f a.no_alarm,
        progress-none os input false r w a.no_reduction,
        fetch-nobody os req_size false r w a,
        same-branches,
      )
      refl

-- A round with the flag of an abort does so too, in the abort state.
pub round-flagged :
    (os : Os) (req_size : ℕ) (input : Input) (r : Round) (w : Work)
    → IsQuiet r
    → IsAlone w.state
    → w.state.abort_flag ≡ true
    → work_round os req_size input r w
      ≡ process_or_end input r
          (record w { state = at w.state w.state.local_objects_processed true true })
unfolding work_round
round-flagged os req_size input r w h a f =
    let w' = record w { state = at w.state w.state.local_objects_processed true true } in
    let a' = at-IsAlone w.state w.state.local_objects_processed true true a in
    rw
      (
        serve-quiet os req_size input r w h a.no_sends,
        watch-abort r w h a f,
        progress-none os input false r w' a'.no_reduction,
        fetch-nobody os req_size false r w' a',
        same-branches,
      )
      refl

-- What the check for termination leaves.
abbrev pub ended : State → State
ended st = record st {
  posted =
      st.posted ++ messages Tag.term (Payload.ints (int_of st.term.flag ∷ [])) st.tree.children 0;
  term = record { flag = true; up = false; replies = 0 };
}

pub ended-IsAlone : (st : State) → IsAlone st → IsAlone (ended st)
ended-IsAlone st h = record {
  root = h.root;
  leaf = h.leaf;
  nobody = h.nobody;
  no_sends = h.no_sends;
  not_asked = h.not_asked;
  nothing_sent = h.nothing_sent;
  no_token = h.no_token;
  by_tree = h.by_tree;
  no_transfer = h.no_transfer;
  term_flag = refl;
  term_down = refl;
  term_none = refl;
  no_reduction = h.no_reduction;
  reduced = h.reduced;
  no_alarm = h.no_alarm;
  barrier_up = h.barrier_up;
  barrier_none = h.barrier_none;
}

status-by_tree :
    (r : Round) (st : State)
    → st.term_tree_enabled ≡ true
    → term_status r st ≡ check_for_term_allreduce st r.flags r.result
unfolding term_status
status-by_tree r st e = rw e refl

ends-alone :
    (r : Round) (st : State)
    → IsQuiet r
    → IsAlone st
    → term_status r st ≡ ok (ended st, Color.terminate)
unfolding conjunction
ends-alone r st h a =
    let none_below = λ (j : ℕ) (lt : j < st.tree.children).
      absurd {A = get_elem? st.tree.child_ranks j ≡ some (some (0 + j))}
        (omega (arith, lt, a.leaf)) in
    let fresh_ : IsFresh st 0 = record {
      down = a.term_down;
      none_yet = a.term_none;
      settled = a.no_transfer;
      child = none_below;
    } in
    status-by_tree r st a.by_tree
    ∙ ap (λ l. check_for_term_allreduce st l r.result) h.no_flag
    ∙ allreduce-root st 0 fresh_ [] (omega (arith, a.leaf)) r.result a.root
    ∙ ap (λ f. ok (ended st, if f then Color.terminate else Color.white)) a.term_flag

-- With no items, or with the flag set, a round ends the loop.
pub ends-empty :
    (input : Input) (r : Round) (w : Work)
    → IsQuiet r
    → IsAlone w.state
    → (ltb 0 w.queue.count && not w.state.abort_flag) ≡ false
    → process_or_end input r w ≡ ok (record w { state = ended w.state }, true)
unfolding process_or_end
ends-empty input r w h a e = rw (e, ends-alone r w.state h a) refl
