-- ===== src/Reduction/Stale.antt =====
-- CIRCLE_reduce with a size of 0 clears the pointer to the data and keeps its size.
use libcircle.Prelude.{ℕ, ◌<◌, ◌≡◌, ap, true, none, some, List, length, lt→ltb}
use libcircle.C.{fault, ◌>>=◌, int_limit, Os}
use libcircle.State.{UserData, State}
use libcircle.Input.{reduce}
use libcircle.Input.Data.{reduce-nothing}
use libcircle.Reduction.{send_partial}
use libcircle.Reduction.Sync.{Fits, holding}
use libcircle.Reduction.Sum.{to_int-Fits}

send-null :
    (st : State) (size : ℕ) {above : ℕ}
    → st.tree.parent_rank ≡ some above
    → st.user ≡ record { buf = none; size = size }
    → 0 < size
    → size < int_limit
    → send_partial st true ≡ fault
unfolding send_partial
send-null st size e u some_ small = simp (u, to_int-Fits size small, lt→ltb 0 size some_, e)

-- A rank below the first whose user has given data to the reduction, and then gives data of size 0,
-- faults when it sends its partial result: it reads as many bytes as before through a null pointer.
pub reduce-stale :
    (os : Os) (st : State) (v buf : List ℕ) (above : ℕ)
    → st.tree.parent_rank ≡ some above
    → st.user ≡ holding v
    → Fits v
    → (reduce os st.user buf 0 >>= λ user. send_partial (record st { user = user }) true) ≡ fault
reduce-stale os st v buf above e u fits = rw (reduce-nothing os st.user buf) (
    send-null (record st { user = record (st.user) { buf = none } }) (length v) e
      (ap (λ (d : UserData). record d { buf = none }) u) fits.0 fits.1)
