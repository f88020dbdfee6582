-- ===== src/State/Isend.antt =====
-- A non-blocking send is handed to MPI and tracked, where memory is granted.
use libcircle.Prelude.{arith, ℕ, ◌+◌, ◌*◌, ◌<◌, ◌≡◌, refl, true, Option}
use libcircle.C.{ok, int_limit, Os}
use libcircle.Sends.{Payload, Sends, track}
use libcircle.Sends.Track.{
  IsTracked, HasSendRoom, HasSendRoom-added, added, track-IsTracked, track-within,
}
use libcircle.State.{Tag, State, post, isend}

pub isend-ok :
    (os : Os) (req_size : ℕ) (st : State) (dest : ℕ) (tag : Tag) (p : Payload)
    (buf : Option Payload)
    → ((n : ℕ) → os.grants n ≡ true)
    → IsTracked st.sends
    → st.sends.capacity * 2 < int_limit
    → (c : ℕ) × (isend os req_size st dest tag p buf
        ≡ ok (record (post st dest tag p) { sends = added st.sends c buf }))
      × IsTracked (added st.sends c buf)
unfolding isend
isend-ok os req_size st dest tag p buf grants t small =
    let (c, e, t', _) = track-IsTracked os req_size buf grants t small in (c, rw e, t')

pub isend-track :
    (os : Os) (req_size : ℕ) (st : State) (dest : ℕ) (tag : Tag) (p : Payload)
    (buf : Option Payload) {sends : Sends}
    → track os req_size st.sends buf ≡ ok sends
    → isend os req_size st dest tag p buf ≡ ok (record (post st dest tag p) { sends = sends })
unfolding isend
isend-track os req_size st dest tag p buf e = rw e refl

-- The same where the arrays of sends have room within a bound.
pub isend-within :
    (os : Os) (req_size bound n : ℕ) (st : State) (dest : ℕ) (tag : Tag) (p : Payload)
    (buf : Option Payload)
    → ((n : ℕ) → os.grants n ≡ true)
    → HasSendRoom bound (n + 1) st.sends
    → bound < int_limit
    → (c : ℕ) × (isend os req_size st dest tag p buf
        ≡ ok (record (post st dest tag p) { sends = added st.sends c buf }))
      × HasSendRoom bound n (added st.sends c buf)
isend-within os req_size bound n st dest tag p buf grants h small =
    let (c, e, t, le) =
      track-within os req_size bound buf grants h.tracked h.within (omega (arith, h.room)) small in
    (c, isend-track os req_size st dest tag p buf e, HasSendRoom-added c buf h le t)
