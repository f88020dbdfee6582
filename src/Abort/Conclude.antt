-- ===== src/Abort/Conclude.antt =====
-- One rank's call of CIRCLE_abort_reduce.
use libcircle.Prelude.{
  ℕ, ◌+◌, ◌<◌, ◌≡◌, refl, Bool, Option, none, some, List, [], ◌∷◌, ◌++◌, arith, get_elem?,
}
use libcircle.C.{ok}
use libcircle.Sends.{Payload}
use libcircle.State.{Tag, State}
use libcircle.Collective.{send_to, int_of}
use libcircle.Collective.Down.{messages, send_down-messages}
use libcircle.Abort.{abort_up, abort_result, abort_forward, abort_reduce}

-- The node when the reduction is over: it has told its children, and knows the result.
abbrev pub concluded : State → (left : ℕ) → Bool → State
concluded st left result = record st {
  posted =
      st.posted
      ++ messages Tag.abort_reduce (Payload.ints (int_of result ∷ [])) st.tree.children left;
  abort_flag = result;
  abort = record (st.abort) { active = result };
}

abort_forward-runs :
    (st : State) (left : ℕ) (result : Bool)
    → ((j : ℕ) → j < st.tree.children → get_elem? st.tree.child_ranks j ≡ some (some (left + j)))
    → abort_forward st result ≡ ok (concluded st left result)
unfolding abort_forward
abort_forward-runs st left result child =
    let sent =
      send_down-messages Tag.abort_reduce (Payload.ints (int_of result ∷ [])) st.tree.children 0
        left st λ j lt. let e : 0 + j ≡ j = omega arith in rw e (child j lt) in
    rw sent refl

send_to-child :
    (st : State) (o : Option ℕ) (tag : Tag) (p : Payload) (left : ℕ)
    → ((j : ℕ) → j < st.tree.children → get_elem? st.tree.child_ranks j ≡ some (some (left + j)))
    → (j : ℕ) → j < (send_to st o tag p).tree.children
    → get_elem? (send_to st o tag p).tree.child_ranks j ≡ some (some (left + j))
send_to-child st none tag p left child = child
send_to-child st (some rank) tag p left child = child

-- The node has told its parent.
abbrev pub reported : State → List Bool → State
reported st flags =
    send_to st st.tree.parent_rank Tag.abort_reduce (Payload.ints (int_of (abort_up st flags) ∷ []))

pub reduce-runs :
    (st : State) (flags : List Bool) (answer : Bool) (left : ℕ)
    → ((j : ℕ) → j < st.tree.children → get_elem? st.tree.child_ranks j ≡ some (some (left + j)))
    → abort_reduce st flags answer
      ≡ ok (concluded (reported st flags) left (abort_result st flags answer))
unfolding abort_reduce
reduce-runs st flags answer left child =
    abort_forward-runs (reported st flags) left (abort_result st flags answer) (
      send_to-child st st.tree.parent_rank Tag.abort_reduce
        (Payload.ints (int_of (abort_up st flags) ∷ [])) left child)

pub result-inner :
    (st : State) (flags : List Bool) (answer : Bool) {rank : ℕ}
    → st.tree.parent_rank ≡ some rank
    → abort_result st flags answer ≡ answer
unfolding abort_result
result-inner st flags answer e = rw e refl

pub result-root :
    (st : State) (flags : List Bool) (answer : Bool)
    → st.tree.parent_rank ≡ none
    → abort_result st flags answer ≡ abort_up st flags
unfolding abort_result
result-root st flags answer e = rw e refl
