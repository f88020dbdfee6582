-- ===== src/Request/Refuse.antt =====
-- A rank that has no work to give answers every request.
use mathlib.Core.List.{append_assoc, append-nil}
use libcircle.Prelude.{
  ℕ, suc, ◌+◌, ◌*◌, ◌≤◌, ◌<◌, ◌≡◌, refl, ◌∙◌, ap, Bool, true, ◌||◌, some, List, [], ◌∷◌, ◌++◌, map,
  arith, length, length-append, le→leb, leb, ◌==◌, pos→==zero,
}
use libcircle.C.{ok, ◌>>=◌, int_limit, Os}
use libcircle.Queue.{Queue}
use libcircle.Sends.{Sends}
use libcircle.Sends.Track.{IsTracked, HasSendRoom, added, track-within}
use libcircle.State.{Post, State}
use libcircle.Transfer.Refusal.{refusal, answer_buf, send_no_work-track}
use libcircle.Request.{refuse_all, workreq_check}

-- The rank when it has answered.
abbrev pub refused : State → List ℕ → Sends → State
refused st requestors sends = record st {
  posted = st.posted ++ map (refusal st.abort_flag) requestors;
  sends = sends;
}

refuse_all-refused :
    (os : Os) (req_size bound : ℕ) (requestors : List ℕ) (st : State)
    → ((n : ℕ) → os.grants n ≡ true)
    → HasSendRoom bound (length requestors) st.sends
    → bound < int_limit
    → (sends : Sends) × (refuse_all os req_size st requestors ≡ ok (refused st requestors sends))
      × (length sends.slots ≡ length st.sends.slots + length requestors)
      × IsTracked sends
unfolding refuse_all
refuse_all-refused os req_size bound [] st grants h small =
    (st.sends, rw append-nil refl, omega arith, h.tracked)
refuse_all-refused os req_size bound (r ∷ requestors) st grants h small =
    let buf = some (answer_buf st.abort_flag) in
    let (c, e, tracked, le) =
      track-within os req_size bound buf grants h.tracked h.within (omega (arith, h.room)) small in
    let s1 = added st.sends c buf in
    let one_more : length s1.slots ≡ length st.sends.slots + 1 =
      omega (
        arith,
        length-append st.sends.slots (record { req = st.sends.next_req; buf = buf } ∷ []),
      ) in
    let mine : List Post = refusal st.abort_flag r ∷ [] in
    let st1 = record st { posted = st.posted ++ mine; sends = s1 } in
    let (s2, run, count, tracked') =
      refuse_all-refused os req_size bound requestors st1 grants
        (record { tracked = tracked; within = le; room = omega (arith, h.room, one_more) }) small in
    (
      s2,
      ap (λ m. m >>= λ s. refuse_all os req_size s requestors)
            (send_no_work-track os req_size st r (grants 8) e)
          ∙ run
          ∙ ap (λ p. ok (record st { posted = p; sends = s2 }))
              (append_assoc st.posted mine (map (refusal st.abort_flag) requestors)),
      omega (arith, count, one_more),
      tracked',
    )

-- A rank that has no work, is in the cleanup phase, is told to abort, or has too many sends under
-- way, sends each requestor exactly one answer, in the order of the requests: the signal to abort
-- where its flag is set, else that it has no work. All answers are tracked within the arrays, and the
-- queue is as it was. There are at most as many requestors as ranks, memory is granted, and the
-- arrays of sends have room within a bound that fits an int.
pub workreq_check-refused :
    (os : Os) (req_size bound : ℕ) (equal cleanup : Bool) (rand : ℕ) (q : Queue) (st : State)
    (requestors : List ℕ)
    → ((n : ℕ) → os.grants n ≡ true)
    → HasSendRoom bound (length requestors) st.sends
    → bound < int_limit
    → length requestors ≤ st.size
    → (q.count == 0 || cleanup || st.abort_flag || leb (4 * st.size) (length st.sends.slots)) ≡ true
    → (sends : Sends) × (workreq_check os req_size equal cleanup rand q st requestors
        ≡ ok (q, refused st requestors sends))
      × (length sends.slots ≡ length st.sends.slots + length requestors)
      × IsTracked sends
unfolding workreq_check refuse_all
workreq_check-refused os req_size bound equal cleanup rand q st [] grants h small few none_ =
    (st.sends, rw (le→leb 0 st.size few, append-nil) refl, omega arith, h.tracked)
workreq_check-refused os req_size bound equal cleanup rand q st (r ∷ requestors) grants h small few
      none_ =
    let (sends, run, count, tracked) =
      refuse_all-refused os req_size bound (r ∷ requestors) st grants h small in
    (
      sends,
      rw
          (
            le→leb (suc (length requestors)) st.size few,
            pos→==zero (suc (length requestors)) (omega arith),
            none_,
            run,
          )
          refl,
      count,
      tracked,
    )
