-- ===== src/Abort/Spread.antt =====
-- The messages of a node that enters the abort state: one to its parent, and one to each child.
use libcircle.Prelude.{
  ℕ, zero, suc, ◌+◌, ◌*◌, ◌<◌, ◌≤◌, ◌≡◌, inl, inr, refl, ◌∙◌, ap, true, Option, none, some, List,
  [], ◌∷◌, ◌++◌, arith, get_elem?, ltb, le→leb, if◌then◌else◌, Bool-cases,
}
use mathlib.Core.List.{append_assoc, append-nil}
use libcircle.C.{ok}
use libcircle.Sends.{Payload}
use libcircle.State.{Tag, Post, State, post}
use libcircle.Collective.Down.{messages}
use libcircle.Abort.{request_abort, request_children, request_parent, spread_abort}

request_abort-some :
    (st : State) (k rank : ℕ)
    → k + 2 ≤ st.abort.num_req
    → request_abort st k (some rank) ≡ ok (post st rank Tag.abort_request Payload.empty, k + 2)
unfolding request_abort
request_abort-some st k rank le = rw (le→leb (k + 2) st.abort.num_req le) refl

request_children-messages :
    (n i left : ℕ) (st : State) (k : ℕ)
    → ((j : ℕ) → j < n → get_elem? st.tree.child_ranks (i + j) ≡ some (some (left + j)))
    → k + 2 * n ≤ st.abort.num_req
    → request_children n i st k
      ≡ ok (
        record st { posted = st.posted ++ messages Tag.abort_request Payload.empty n left },
        k + 2 * n,
      )
unfolding request_children messages
request_children-messages zero i left st k h le =
    let e : k + 2 * 0 ≡ k = omega arith in rw (append-nil, e) refl
request_children-messages (suc n) i left st k h le =
    let e : i + 0 ≡ i = omega arith in
    let e' : left + 0 ≡ left = omega arith in
    let first : get_elem? st.tree.child_ranks i ≡ some (some left) =
      rw (e, e') at (h 0 (omega arith)) in
    let sum : k + 2 + 2 * n ≡ k + 2 * suc n = omega arith in
    let mine : List Post =
      record { dest = left; tag = Tag.abort_request; payload = Payload.empty } ∷ [] in
    let rest =
      request_children-messages n (i + 1) (left + 1) (post st left Tag.abort_request Payload.empty)
        (k + 2)
        (λ j lt.
          let p : i + 1 + j ≡ i + suc j = omega arith in
          let p' : left + 1 + j ≡ left + suc j = omega arith in
          rw (p, p') (h (suc j) (omega arith)))
        (omega arith) in
    rw (first, request_abort-some st k left (omega arith), ← sum)
      (rest
        ∙ ap (λ p. ok (record st { posted = p }, k + 2 + 2 * n))
            (append_assoc st.posted mine (messages Tag.abort_request Payload.empty n (left + 1))))

-- The requests that a node posts, two for each neighbour.
abbrev pub requests : (parent : Option ℕ) → (children : ℕ) → ℕ
requests none children = 0 + 2 * children
requests (some rank) children = 2 + 2 * children

-- A node whose children are the ranks from `left` on, with room for its requests.
pub record HasNeighbours (st : State) (left : ℕ) : Type 0 where
  pub room : requests st.tree.parent_rank st.tree.children ≤ st.abort.num_req
  pub child :
      (j : ℕ) → j < st.tree.children → get_elem? st.tree.child_ranks j ≡ some (some (left + j))

-- The messages of a node that enters the abort state.
abbrev pub alarms : (parent : Option ℕ) → (children left : ℕ) → List Post
alarms none children left = messages Tag.abort_request Payload.empty children left
alarms (some rank) children left =
    record { dest = rank; tag = Tag.abort_request; payload = Payload.empty }
    ∷ messages Tag.abort_request Payload.empty children left

-- The node when it has told its neighbours.
abbrev pub alarmed : State → (parent : Option ℕ) → (left : ℕ) → State
alarmed st parent left = record st {
  posted = st.posted ++ alarms parent st.tree.children left;
  abort = record (st.abort) {
    outstanding = if ltb 0 (requests parent st.tree.children) then true else st.abort.outstanding;
  };
}

spread_abort-runs :
    (st st1 : State) (k1 left : ℕ)
    → request_parent st ≡ ok (st1, k1)
    → request_children st1.tree.children 0 st1 k1
      ≡ ok (
        record st1 {
          posted = st1.posted ++ messages Tag.abort_request Payload.empty st1.tree.children left;
        },
        k1 + 2 * st1.tree.children,
      )
    → spread_abort st
      ≡ ok (record st1 {
        posted = st1.posted ++ messages Tag.abort_request Payload.empty st1.tree.children left;
        abort = record (st1.abort) {
          outstanding = if ltb 0 (k1 + 2 * st1.tree.children) then true else st1.abort.outstanding;
        };
      })
unfolding spread_abort
spread_abort-runs st st1 k1 left e e' =
    rw (e, e')
      (elim (Bool-cases (ltb 0 (k1 + 2 * st1.tree.children))) [
        | inl more ↦ rw more refl
        | inr none_ ↦ rw none_ refl
      ])

request_parent-none : (st : State) → st.tree.parent_rank ≡ none → request_parent st ≡ ok (st, 0)
unfolding request_parent
request_parent-none st e = rw e refl

request_parent-some :
    (st : State) (rank : ℕ)
    → st.tree.parent_rank ≡ some rank
    → 2 ≤ st.abort.num_req
    → request_parent st ≡ ok (post st rank Tag.abort_request Payload.empty, 2)
unfolding request_parent
request_parent-some st rank e le = simp (e, request_abort-some st 0 rank le)

pub spread_abort-alarmed :
    (st : State) (left : ℕ) (parent : Option ℕ)
    → st.tree.parent_rank ≡ parent
    → requests parent st.tree.children ≤ st.abort.num_req
    → ((j : ℕ) → j < st.tree.children → get_elem? st.tree.child_ranks j ≡ some (some (left + j)))
    → spread_abort st ≡ ok (alarmed st parent left)
spread_abort-alarmed st left none e room child =
    spread_abort-runs st st 0 left (request_parent-none st e) (
      request_children-messages st.tree.children 0 left st 0
        (λ j lt. let z : 0 + j ≡ j = omega arith in rw z (child j lt)) room)
spread_abort-alarmed st left (some rank) e room child =
    let st1 = post st rank Tag.abort_request Payload.empty in
    spread_abort-runs st st1 2 left (request_parent-some st rank e (omega arith)) (
      request_children-messages st.tree.children 0 left st1 2
        (λ j lt. let z : 0 + j ≡ j = omega arith in rw z (child j lt)) room)
    ∙ ap (λ p. ok (record (alarmed st (some rank) left) { posted = p }))
        (append_assoc st.posted
          (record { dest = rank; tag = Tag.abort_request; payload = Payload.empty } ∷ [])
          (messages Tag.abort_request Payload.empty st.tree.children left))
