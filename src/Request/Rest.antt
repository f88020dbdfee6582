-- ===== src/Request/Rest.antt =====
-- A rank for which no message is there, and that has no other rank to ask.
use libcircle.Prelude.{
  same-branches, ℕ, ◌≡◌, refl, Bool, true, false, not, ◌&&◌, Option, none, List, [], ℤ, pos, arith,
  le→leb,
}
use libcircle.C.{ok, Os}
use libcircle.Queue.{Queue}
use libcircle.State.{State}
use libcircle.Request.{
  get_next_proc, test_request, ask, request_work, workreceipt_check, workreq_check,
}

pub workreq_check-none :
    (os : Os) (req_size : ℕ) (equal cleanup : Bool) (rand : ℕ) (q : Queue) (st : State)
    → workreq_check os req_size equal cleanup rand q st [] ≡ ok (q, st)
unfolding workreq_check
workreq_check-none os req_size equal cleanup rand q st = rw (le→leb 0 st.size (omega arith)) refl

pub workreceipt_check-none : (st : State) → workreceipt_check st 0 ≡ st
unfolding workreceipt_check
workreceipt_check-none st = refl

pub request_work-nobody :
    (os : Os) (req_size : ℕ) (cleanup tested : Bool) (reply : Option (List ℤ × List ℕ))
    (draws : List ℕ) (q : Queue) (st : State)
    → st.request_pending ≡ false
    → st.work_requested ≡ false
    → st.next_processor ≡ none
    → request_work os req_size cleanup tested reply draws q st ≡ ok (q, st, pos 0)
unfolding request_work test_request ask
request_work-nobody os req_size cleanup tested reply draws q st p w n =
    simp (p, w, n) (same-branches (not cleanup && not st.abort_flag && true) (ok (q, st, pos 0)))

pub get_next_proc-alone :
    (st : State) (draws : List ℕ)
    → st.size ≡ 1
    → get_next_proc st draws ≡ ok (record st { next_processor = none })
unfolding get_next_proc
get_next_proc-alone st draws e = rw e refl
