-- ===== src/Collective/Rest.antt =====
-- The barrier on a communicator of one rank.
use libcircle.Prelude.{ℕ, ◌≡◌, refl, ◌∙◌, Bool, true, false, none}
use libcircle.C.{ok}
use libcircle.Sends.{Payload}
use libcircle.State.{Tag, State}
use libcircle.Collective.{
  send_down, barrier_start, count_child, barrier_up, barrier_finish, barrier_test,
}

pub send_down-nobody :
    (tag : Tag) (payload : Payload) (n i : ℕ) (st : State)
    → n ≡ 0
    → send_down tag payload n i st ≡ ok st
unfolding send_down
send_down-nobody tag payload n i st e = rw e refl

count_child-alone :
    (st : State) (arrived : Bool)
    → st.tree.children ≡ 0
    → st.barrier.replies ≡ 0
    → count_child st arrived ≡ st
unfolding count_child
count_child-alone st arrived c n = rw (c, n) refl

barrier_up-alone :
    (st : State)
    → st.tree.parent_rank ≡ none
    → st.tree.children ≡ 0
    → st.barrier.up ≡ false
    → st.barrier.replies ≡ 0
    → barrier_up st ≡ record st { barrier = record (st.barrier) { up = true } }
unfolding barrier_up
barrier_up-alone st p c u n = rw (p, c, u, n) refl

barrier_finish-alone :
    (st : State)
    → st.tree.children ≡ 0
    → barrier_finish st
      ≡ ok (record st { barrier = record { started = false; up = false; replies = 0 } }, true)
unfolding barrier_finish send_down
barrier_finish-alone st c = rw c refl

test-runs :
    (st st1 st2 : State) (arrived released : Bool)
    → st.barrier.started ≡ true
    → count_child st arrived ≡ st1
    → barrier_up st1 ≡ st2
    → st2.barrier.up ≡ true
    → st2.tree.parent_rank ≡ none
    → barrier_test st arrived released ≡ barrier_finish st2
unfolding barrier_test
test-runs st st1 st2 arrived released s e e' u p = rw (e, e', u, p, s) refl

-- The first test after the start passes.
pub barrier_test-alone :
    (st : State) (arrived released : Bool)
    → st.tree.parent_rank ≡ none
    → st.tree.children ≡ 0
    → st.barrier.up ≡ false
    → st.barrier.replies ≡ 0
    → barrier_test (barrier_start st) arrived released
      ≡ ok (record st { barrier = record { started = false; up = false; replies = 0 } }, true)
unfolding barrier_start
barrier_test-alone st arrived released p c u n =
    let st1 = record st { barrier = record (st.barrier) { started = true } } in
    let st2 = record st1 { barrier = record (st1.barrier) { up = true } } in
    test-runs st1 st1 st2 arrived released refl (count_child-alone st1 arrived c n)
      (barrier_up-alone st1 p c u n) refl p
    ∙ barrier_finish-alone st2 c
