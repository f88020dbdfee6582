-- ===== src/Request/Keeps.antt =====
-- The requests for work and the answers keep what `Keeps` names.
use libcircle.Prelude.{
  ℕ, zero, suc, ◌-◌, ◌%◌, Bool, false, not, ◌&&◌, Option, none, some, List, [], ◌∷◌, length, leb,
  ltb, ◌==◌, ℤ, pos, Bool-cases, inl, inr,
}
use libcircle.C.{ok, ◌>>=◌, require, Os}
use libcircle.C.Every.{Every, Every-bind, Every-after, Every-if, Every-weaken}
use libcircle.Queue.{Queue}
use libcircle.State.{State}
use libcircle.State.Keeps.{Keeps, keeps, Keeps-trans, Keeps-if}
use libcircle.Transfer.{send_no_work, send_work_to_many}
use libcircle.Transfer.Keeps.{KeepsSecond, KeepsLast, send_no_work-Keeps, send_work_to_many-Keeps}
use libcircle.Receive.{work_receive}
use libcircle.Receive.Keeps.{work_receive-Keeps}
use libcircle.Request.{
  pick, get_next_proc, test_request, ask_rank, ask, receive_reply, request_work, workreceipt_check,
  refuse_all, workreq_check,
}

pick-Keeps : (st : State) (draws : List ℕ) → Every (Keeps st) (pick st draws)
unfolding pick Every
pick-Keeps st [] = tt
pick-Keeps st (r ∷ draws) =
    Every-if (Keeps st) (r % st.size == st.rank) (pick st draws) _ (pick-Keeps st draws) (keeps st)

next-Keeps : (st : State) (draws : List ℕ) → Every (Keeps st) (get_next_proc st draws)
unfolding get_next_proc Every
next-Keeps st draws =
    Every-if (Keeps st) (ltb 1 st.size) (pick st draws) _ (pick-Keeps st draws) (keeps st)

ask-Keeps : (st : State) (draws : List ℕ) → Every (Keeps st) (ask st draws)
unfolding ask ask_rank Every
ask-Keeps st draws =
    elim st.next_processor
      as (λ o.
        Every (Keeps st) (elim o [ none ↦ ok st | some source ↦ ask_rank st source draws ])) [
          | none ↦ keeps st
          | some source ↦ next-Keeps _ draws
        ]

test-Keeps : (st : State) (tested : Bool) → Keeps st (test_request st tested).0
unfolding test_request
test-Keeps st tested = elim (Bool-cases st.request_pending) [
  | inl p ↦ rw p (keeps st)
  | inr p ↦ rw p (keeps st)
]

reply-Keeps :
    (os : Os) (req_size : ℕ) (q : Queue) (st : State) (reply : Option (List ℤ × List ℕ))
    → Every (KeepsSecond st) (receive_reply os req_size q st reply)
unfolding receive_reply Every
reply-Keeps os req_size q st none = keeps st
reply-Keeps os req_size q st (some (ints, chars)) =
    Every-bind (KeepsSecond st) (KeepsSecond st)
      (work_receive os req_size q st st.work_requested_rank ints chars) _
      (work_receive-Keeps os req_size q st st.work_requested_rank ints chars) λ (q', st', rc) k. k

pub request_work-Keeps :
    (os : Os) (req_size : ℕ) (cleanup tested : Bool) (reply : Option (List ℤ × List ℕ))
    (draws : List ℕ) (q : Queue) (st : State)
    → Every (KeepsSecond st) (request_work os req_size cleanup tested reply draws q st)
unfolding request_work Every
request_work-Keeps os req_size cleanup tested reply draws q st =
    let st1 = (test_request st tested).0 in
    let k1 = test-Keeps st tested in
    Every-if (KeepsSecond st) st1.work_requested _ _
      (Every-weaken (KeepsSecond st1) (KeepsSecond st) (receive_reply os req_size q st1 reply)
        (reply-Keeps os req_size q st1 reply) λ r k. Keeps-trans st st1 r.1 k1 k)
      (Every-if (KeepsSecond st) (not cleanup && not st1.abort_flag && (test_request st tested).1)
        (ask st1 draws >>= λ st2. ok (q, st2, pos 0)) (ok (q, st1, pos 0))
        (Every-bind (Keeps st1) (KeepsSecond st) (ask st1 draws) (λ st2. ok (q, st2, pos 0))
          (ask-Keeps st1 draws) λ st2 k2. Keeps-trans st st1 st2 k1 k2)
        k1)

pub workreceipt_check-Keeps : (st : State) (arrived : ℕ) → Keeps st (workreceipt_check st arrived)
unfolding workreceipt_check
workreceipt_check-Keeps st zero = keeps st
workreceipt_check-Keeps st (suc n) =
    Keeps-if (ltb 0 st.work_outstanding) st _ st
      (workreceipt_check-Keeps
        (record st {
          work_outstanding = st.work_outstanding - 1;
          term = record (st.term) { flag = false };
        })
        n)
      (keeps st)

refuse_all-Keeps :
    (os : Os) (req_size : ℕ) (st : State) (requestors : List ℕ)
    → Every (Keeps st) (refuse_all os req_size st requestors)
unfolding refuse_all Every
refuse_all-Keeps os req_size st [] = keeps st
refuse_all-Keeps os req_size st (r ∷ requestors) =
    Every-bind (Keeps st) (Keeps st) (send_no_work os req_size st r) _
      (send_no_work-Keeps os req_size st r)
      λ st1 k1.
        Every-weaken (Keeps st1) (Keeps st) (refuse_all os req_size st1 requestors)
          (refuse_all-Keeps os req_size st1 requestors) λ st2 k2. Keeps-trans st st1 st2 k1 k2

pub workreq_check-Keeps :
    (os : Os) (req_size : ℕ) (equal cleanup : Bool) (rand : ℕ) (q : Queue) (st : State)
    (requestors : List ℕ)
    → Every (KeepsLast st) (workreq_check os req_size equal cleanup rand q st requestors)
unfolding workreq_check Every
workreq_check-Keeps os req_size equal cleanup rand q st requestors =
    Every-after (KeepsLast st) (require (leb (length requestors) st.size)) _ λ u.
      Every-if (KeepsLast st) (length requestors == 0) _ _ (keeps st) (
        Every-if (KeepsLast st) _ _ (send_work_to_many os req_size equal rand q st requestors)
          (Every-bind (Keeps st) (KeepsLast st) (refuse_all os req_size st requestors) _
            (refuse_all-Keeps os req_size st requestors) λ st' k. k)
          (send_work_to_many-Keeps os req_size equal rand q st requestors))
