-- ===== src/Abort/Keeps.antt =====
-- The check for an abort keeps what `Keeps` names.
use libcircle.Prelude.{
  ℕ, zero, suc, ◌+◌, Bool, true, ◌&&◌, Option, none, some, refl, if◌then◌else◌, is_none, get_elem?,
  leb, ltb,
}
use libcircle.C.{ok, deref, require}
use libcircle.C.Every.{Every, Every-bind, Every-after, Every-if, Every-weaken}
use libcircle.Sends.{Payload}
use libcircle.State.{Tag, State, post}
use libcircle.State.Keeps.{Keeps, keeps, Keeps-trans, Keeps-if}
use libcircle.Collective.Keeps.{send_to-Keeps}
use libcircle.Abort.{
  request_abort, request_children, request_parent, spread_abort, abort_start, abort_drain,
  abort_answer, abort_check,
}

abbrev KeepsFirst : State → State × ℕ → Type 0
KeepsFirst st r = Keeps st r.0

request_abort-Keeps :
    (st : State) (k : ℕ) (rank : Option ℕ) → Every (KeepsFirst st) (request_abort st k rank)
unfolding request_abort Every
request_abort-Keeps st k rank =
    Every-after (KeepsFirst st) (require (leb (k + 2) st.abort.num_req)) _
      λ u. send_to-Keeps st rank Tag.abort_request Payload.empty

request_children-Keeps :
    (n i : ℕ) (st : State) (k : ℕ) → Every (KeepsFirst st) (request_children n i st k)
unfolding request_children Every
request_children-Keeps zero i st k = keeps st
request_children-Keeps (suc n) i st k =
    Every-after (KeepsFirst st) (deref (get_elem? st.tree.child_ranks i)) _ λ child.
      Every-bind (KeepsFirst st) (KeepsFirst st) (request_abort st k child) _
        (request_abort-Keeps st k child)
        λ (st1, k1) kept.
          Every-weaken (KeepsFirst st1) (KeepsFirst st) (request_children n (i + 1) st1 k1)
            (request_children-Keeps n (i + 1) st1 k1) λ r kept'. Keeps-trans st st1 r.0 kept kept'

spread_abort-Keeps : (st : State) → Every (Keeps st) (spread_abort st)
unfolding spread_abort request_parent Every
spread_abort-Keeps st =
    Every-bind (KeepsFirst st) (Keeps st) (request_parent st) _
      (Every-if (KeepsFirst st) (is_none st.tree.parent_rank) _
        (request_abort st 0 st.tree.parent_rank) (keeps st)
        (request_abort-Keeps st 0 st.tree.parent_rank))
      λ (st1, k1) kept.
        Every-bind (KeepsFirst st1) (Keeps st) (request_children st1.tree.children 0 st1 k1) _
          (request_children-Keeps st1.tree.children 0 st1 k1)
          λ (st2, k2) kept'.
            let kept2 = Keeps-trans st st1 st2 kept kept' in
            Keeps-if (ltb 0 k2) st _ st2 kept2 kept2

abort_start-Keeps : (st : State) (cleanup : Bool) → Every (Keeps st) (abort_start st cleanup)
unfolding abort_start Every
abort_start-Keeps st cleanup =
    let entered = record st { abort_flag = true; abort = record (st.abort) { active = true } } in
    let set : Keeps st entered = (refl, refl, refl, refl, λ f. refl) in
    Every-if (Keeps st) st.abort.active _ _ set (
      Every-if (Keeps st) cleanup _ _ set (
        Every-weaken (Keeps entered) (Keeps st) (spread_abort entered) (spread_abort-Keeps entered)
          λ st' kept. Keeps-trans st entered st' set kept))

drain-Keeps : (st : State) (completed : Bool) → Keeps st (abort_drain st completed)
unfolding abort_drain
drain-Keeps st completed =
    Keeps-if (st.abort.outstanding && completed) st _ st (keeps st) (keeps st)

answer-Keeps :
    (st : State) (cleanup : Bool) (request : Option ℕ)
    → Every (Keeps st) (abort_answer st cleanup request)
unfolding abort_answer Every
answer-Keeps st cleanup none = keeps st
answer-Keeps st cleanup (some rank) =
    let replied = post st rank Tag.abort_reply Payload.empty in
    Every-weaken (Keeps replied) (Keeps st) (abort_start replied cleanup)
      (abort_start-Keeps replied cleanup) λ st' kept. kept

pub abort_check-Keeps :
    (st : State) (cleanup : Bool) (request : Option ℕ) (completed : Bool)
    → Every (Keeps st) (abort_check st cleanup request completed)
unfolding abort_check Every
abort_check-Keeps st cleanup request completed =
    Every-bind (Keeps st) (Keeps st) (if st.abort_flag then abort_start st cleanup else ok st) _
      (Every-if (Keeps st) st.abort_flag (abort_start st cleanup) _ (abort_start-Keeps st cleanup)
        (keeps st))
      λ st1 k1.
        Every-bind (Keeps st1) (Keeps st) (abort_answer st1 cleanup request) _
          (answer-Keeps st1 cleanup request)
          λ st2 k2.
            Keeps-trans st st1 (abort_drain st2 completed) k1
              (Keeps-trans st1 st2 (abort_drain st2 completed) k2 (drain-Keeps st2 completed))
