-- ===== src/Abort/Rest.antt =====
-- A rank for which no message is there: without an abort its check does nothing, and on a communicator
-- of one rank an abort is entered without a message.
use libcircle.Prelude.{
  ◌≡◌, refl, ◌∙◌, ap, Bool, true, false, none, [], ◌∷◌, is_none, if◌then◌else◌, Bool-cases, inl,
  inr,
}
use libcircle.C.{ok}
use libcircle.State.{Tag, State}
use libcircle.Sends.{Payload}
use libcircle.Collective.{send_to, int_of}
use libcircle.Collective.Rest.{send_down-nobody}
use libcircle.Abort.{
  bcast_abort, request_children, request_parent, spread_abort, abort_start, abort_drain,
  abort_answer, abort_check, disjunction, abort_up, abort_result, abort_forward, abort_reduce,
}

pub bcast_abort_lem : (st : State) → bcast_abort st ≡ record st { abort_flag = true }
unfolding bcast_abort
bcast_abort_lem st = refl

pub abort_check-calm :
    (st : State) (completed : Bool)
    → st.abort_flag ≡ false
    → st.abort.outstanding ≡ false
    → abort_check st false none completed ≡ ok st
unfolding abort_check abort_answer abort_drain
abort_check-calm st completed f o = simp (f, o)

spread_abort-alone :
    (st : State) → st.tree.parent_rank ≡ none → st.tree.children ≡ 0 → spread_abort st ≡ ok st
unfolding spread_abort request_parent request_children
spread_abort-alone st p c = simp (p, c)

-- The rank in the abort state.
abbrev pub aborting : State → State
aborting st = record st { abort_flag = true; abort = record (st.abort) { active = true } }

start-active : (st : State) → st.abort.active ≡ true → abort_start st false ≡ ok (aborting st)
unfolding abort_start
start-active st a =
    rw a refl
    ∙ ap (λ b. ok (record st { abort_flag = true; abort = record (st.abort) { active = b } })) a

start-alone :
    (st : State)
    → st.tree.parent_rank ≡ none
    → st.tree.children ≡ 0
    → abort_start st false ≡ ok (aborting st)
unfolding abort_start
start-alone st p c = elim (Bool-cases st.abort.active) [
  | inl a ↦ start-active st a
  | inr a ↦ rw a (spread_abort-alone (aborting st) p c)
]

pub abort_check-alone :
    (st : State) (completed : Bool)
    → st.abort_flag ≡ true
    → st.tree.parent_rank ≡ none
    → st.tree.children ≡ 0
    → st.abort.outstanding ≡ false
    → abort_check st false none completed ≡ ok (aborting st)
unfolding abort_check abort_answer abort_drain
abort_check-alone st completed f p c o = simp (f, start-alone st p c, o)

forward-alone :
    (st : State) (result : Bool)
    → st.tree.children ≡ 0
    → abort_forward st result
      ≡ ok (record st { abort_flag = result; abort = record (st.abort) { active = result } })
unfolding abort_forward
forward-alone st result c =
    rw
      (send_down-nobody Tag.abort_reduce (Payload.ints (int_of result ∷ [])) st.tree.children 0 st
        c)
      refl

-- The reduction at the end keeps the flag.
pub abort_reduce-alone :
    (st : State) (answer : Bool)
    → st.tree.parent_rank ≡ none
    → st.tree.children ≡ 0
    → abort_reduce st [] answer
      ≡ ok (record st { abort = record (st.abort) { active = st.abort_flag } })
unfolding abort_reduce abort_up abort_result disjunction
abort_reduce-alone st answer p c =
    let message = Payload.ints (int_of st.abort_flag ∷ []) in
    ap
      (λ o.
        abort_forward (send_to st o Tag.abort_reduce message)
          (if is_none o then st.abort_flag else answer))
      p
    ∙ forward-alone st st.abort_flag c
