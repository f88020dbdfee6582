-- ===== src/Request.antt =====
-- Asking for work and answering who asks, in libcircle/token.c: CIRCLE_get_next_proc,
-- CIRCLE_request_work, CIRCLE_workreceipt_check and CIRCLE_workreq_check. What MPI_Test,
-- MPI_Iprobe and MPI_Recv answer, and the numbers that rand_r draws, are parameters.
pub mod Ask
pub mod Keeps
pub mod Refuse
pub mod Rest
pub mod Settle
pub mod Share
use libcircle.Prelude.{
  ℕ, zero, suc, ◌+◌, ◌-◌, ◌*◌, ◌%◌, Bool, true, false, ◌&&◌, ◌||◌, not, Option, none, some, List,
  [], ◌∷◌, ltb, leb, ◌==◌, if◌then◌else◌, length, ℤ, pos,
}
use libcircle.C.{Run, ok, out_of_fuel, ◌>>=◌, ◌>>◌, require, u32_mod, Os}
use libcircle.Queue.{Queue}
use libcircle.Sends.{Payload}
use libcircle.State.{Tag, TermState, State, post}
use libcircle.Transfer.{send_no_work, send_work_to_many}
use libcircle.Receive.{work_receive}

-- `do … while(st->next_processor == st->rank);`, one draw for each round
pub pick : State → (draws : List ℕ) → Run State
pick st [] = out_of_fuel
pick st (r ∷ draws) =
    let again = pick st draws in
    let next = r % st.size in
    if next == st.rank then again else ok (record st { next_processor = some next })

pub get_next_proc : State → (draws : List ℕ) → Run State
get_next_proc st draws =
    if ltb 1 st.size then pick st draws else ok (record st { next_processor = none })

-- MPI_Test of the request message that may still be on its way; a completed request becomes
-- MPI_REQUEST_NULL.
pub test_request : State → (tested : Bool) → State × Bool
test_request st tested =
    if st.request_pending then (record st { request_pending = not tested }, tested) else (st, true)

-- The request to the rank `source`, and the pick of another.
pub ask_rank : State → (source : ℕ) → (draws : List ℕ) → Run State
ask_rank st source draws =
    get_next_proc
      (record (post st source Tag.work_request Payload.empty) {
        local_work_requested = (st.local_work_requested + 1) % u32_mod;
        request_pending = true;
        work_requested = true;
        work_requested_rank = source;
      })
      draws

-- `none` is MPI_PROC_NULL: there is no one to ask.
pub ask : State → (draws : List ℕ) → Run State
ask st draws = elim st.next_processor [ none ↦ ok st | some source ↦ ask_rank st source draws ]

-- `reply` is what the probe for a reply finds: the ints of the first message, and the characters of
-- the one that may follow.
pub receive_reply :
    Os
    → (req_size : ℕ) → Queue
    → State
    → (reply : Option (List ℤ × List ℕ)) → Run (Queue × State × ℤ)
receive_reply os req_size q st none = ok (q, st, pos 0)
receive_reply os req_size q st (some (ints, chars)) = do
  (q', st', rc) ← work_receive os req_size q st st.work_requested_rank ints chars
  ok (q', record st' { work_requested = false }, rc)

pub request_work :
    Os
    → (req_size : ℕ) → (cleanup tested : Bool) → (reply : Option (List ℤ × List ℕ))
    → (draws : List ℕ) → Queue
    → State
    → Run (Queue × State × ℤ)
request_work os req_size cleanup tested reply draws q st =
    let (st1, slot_free) = test_request st tested in
    let answered = receive_reply os req_size q st1 reply in
    let asked = (do st2 ← ask st1 draws; ok (q, st2, pos 0)) in
    if st1.work_requested
    then answered
    else if not cleanup && not st1.abort_flag && slot_free
    then asked
    else ok (q, st1, pos 0)

-- `arrived` is the number of receipts that the probes would find.
unfoldable pub workreceipt_check : State → (arrived : ℕ) → State
workreceipt_check st zero = st
workreceipt_check st (suc n) =
    if ltb 0 st.work_outstanding
    then workreceipt_check
        (record st {
          work_outstanding = st.work_outstanding - 1;
          term = record (st.term) { flag = false };
        })
        n
    else st

-- `for(i = 0; i < rcount; i++) CIRCLE_send_no_work(st, requestors[i]);`
pub refuse_all : Os → (req_size : ℕ) → State → List ℕ → Run State
refuse_all os req_size st [] = ok st
refuse_all os req_size st (r ∷ requestors) = do
  st' ← send_no_work os req_size st r
  refuse_all os req_size st' requestors

-- `requestors` is the ranks whose requests the probes find, in order; the array has one cell for
-- each rank.
pub workreq_check :
    Os
    → (req_size : ℕ) → (equal cleanup : Bool) → (rand : ℕ) → Queue
    → State
    → (requestors : List ℕ) → Run (Queue × State)
workreq_check os req_size equal cleanup rand q st requestors =
    let refused = (do st' ← refuse_all os req_size st requestors; ok (q, st')) in
    let shared = send_work_to_many os req_size equal rand q st requestors in
    let backlog = leb (4 * st.size) (length st.sends.slots) in
    do
      require (leb (length requestors) st.size)
      if length requestors == 0
          then ok (q, st)
          else if q.count == 0 || cleanup || st.abort_flag || backlog
          then refused
          else shared
