-- ===== src/Transfer/Refusal.antt =====
-- The answer that says that there is no work.
use libcircle.Prelude.{ℕ, ◌≡◌, Bool, true, some, [], ◌∷◌, ◌++◌, if◌then◌else◌, pos}
use libcircle.C.{ok, Os}
use libcircle.Sends.{Payload, Sends, track}
use libcircle.State.{Tag, Post, State, payload_abort}
use libcircle.State.Isend.{isend-track}
use libcircle.Transfer.{send_no_work}

-- The answer to a requestor: no work, or the signal to abort.
abbrev pub refusal : (aborted : Bool) → ℕ → Post
refusal aborted r = record {
  dest = r;
  tag = Tag.work_reply;
  payload = Payload.ints ((if aborted then payload_abort else pos 0) ∷ []);
}

-- The buffer of the answer.
abbrev pub answer_buf : (aborted : Bool) → Payload
answer_buf aborted = Payload.ints ((if aborted then payload_abort else pos 0) ∷ pos 0 ∷ [])

pub send_no_work-track :
    (os : Os) (req_size : ℕ) (st : State) (dest : ℕ) {sends : Sends}
    → os.grants 8 ≡ true
    → track os req_size st.sends (some (answer_buf st.abort_flag)) ≡ ok sends
    → send_no_work os req_size st dest
      ≡ ok (record st { posted = st.posted ++ (refusal st.abort_flag dest ∷ []); sends = sends })
unfolding send_no_work
send_no_work-track os req_size st dest g e = rw g (
    isend-track os req_size st dest Tag.work_reply
      (Payload.ints ((if st.abort_flag then payload_abort else pos 0) ∷ []))
      (some (answer_buf st.abort_flag)) e)
