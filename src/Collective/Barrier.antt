-- ===== src/Collective/Barrier.antt =====
-- A node passes the barrier only when all its children have come and its parent has released it.
use libcircle.Prelude.{
  ℕ, ◌+◌, ◌<◌, ◌≤◌, ◌≡◌, ◌⊎◌, inl, inr, refl, sym, ◌∙◌, ap, Bool, true, false, ◌&&◌, ◌||◌, not,
  Option, none, some, ◌++◌, arith, get_elem?, ltb, ltb→lt, ◌==◌, ==_iff, if◌then◌else◌, is_none,
  Bool-cases,
}
use libcircle.C.{ok}
use libcircle.Sends.{Payload}
use libcircle.State.{Tag, State}
use libcircle.Tree.{Tree}
use libcircle.Collective.{send_to, count_child, barrier_up, barrier_finish, barrier_test}
use libcircle.Collective.Down.{messages, send_down-messages}

-- A node whose children are the ranks from `left` on: it has heard from no more than it has, and
-- has told its parent only when it has heard from all.
pub record IsBarrier (st : State) (left : ℕ) : Type 0 where
  pub counted : st.barrier.replies ≤ st.tree.children
  pub told_after : (st.barrier.up ≡ false) ⊎ (st.barrier.replies ≡ st.tree.children)
  pub child :
      (j : ℕ) → j < st.tree.children → get_elem? st.tree.child_ranks j ≡ some (some (left + j))

-- The messages of children that a call has heard of.
abbrev pub heard : Bool → ℕ
heard true = 1
heard false = 0

count_child-IsBarrier :
    (st : State) (left : ℕ) (arrived : Bool)
    → IsBarrier st left
    → IsBarrier (count_child st arrived) left
      × ((count_child st arrived).barrier.replies ≤ st.barrier.replies + heard arrived)
      × ((count_child st arrived).tree ≡ st.tree)
unfolding count_child
count_child-IsBarrier st left false h =
    elim (Bool-cases (ltb st.barrier.replies st.tree.children)) [
      | inr full ↦ rw full (h, omega arith, refl)
      | inl missing ↦ rw missing (h, omega arith, refl)
    ]
count_child-IsBarrier st left true h = elim (Bool-cases (ltb st.barrier.replies st.tree.children)) [
  | inr full ↦ rw full (h, omega arith, refl)
  | inl missing ↦
      let lt = ltb→lt st.barrier.replies st.tree.children missing in
      rw missing (
        record {
          counted = omega (arith, lt);
          told_after = elim h.told_after [ inl u ↦ inl u | inr e ↦ absurd (omega (arith, lt, e)) ];
          child = h.child;
        },
        omega arith,
        refl,
      )
]

tell-IsBarrier :
    (st : State) (left : ℕ) (parent : Option ℕ)
    → IsBarrier st left
    → st.barrier.replies ≡ st.tree.children
    → IsBarrier
        (record (send_to st parent Tag.barrier Payload.empty) {
          barrier = record (st.barrier) { up = true };
        })
        left
      × ((send_to st parent Tag.barrier Payload.empty).tree ≡ st.tree)
tell-IsBarrier st left none h e =
    (record { counted = h.counted; told_after = inr e; child = h.child }, refl)
tell-IsBarrier st left (some r) h e =
    (record { counted = h.counted; told_after = inr e; child = h.child }, refl)

both-true : (a : Bool) (m n : ℕ) → (not a && (m == n)) ≡ true → m ≡ n
both-true true m n e = cc e
both-true false m n e = (==_iff m n).0 e

both-false : (a : Bool) (m n : ℕ) → m ≤ n → (not a && (m == n)) ≡ false → (a ≡ true) ⊎ (m < n)
both-false true m n le e = inl refl
both-false false m n le e = inr (ground arith)

barrier_up-IsBarrier :
    (st : State) (left : ℕ)
    → IsBarrier st left
    → IsBarrier (barrier_up st) left
      × ((barrier_up st).barrier.replies ≡ st.barrier.replies)
      × ((barrier_up st).tree ≡ st.tree)
      × (((barrier_up st).barrier.up ≡ true) ⊎ (st.barrier.replies < st.tree.children))
unfolding barrier_up
barrier_up-IsBarrier st left h =
    let cond = not st.barrier.up && (st.barrier.replies == st.tree.children) in
    elim (Bool-cases cond) [
      | inr stays ↦ rw stays (
        h,
        refl,
        refl,
        both-false st.barrier.up st.barrier.replies st.tree.children h.counted stays,
      )
      | inl tells ↦
          let all_in = both-true st.barrier.up st.barrier.replies st.tree.children tells in
          let (kept, same) = tell-IsBarrier st left st.tree.parent_rank h all_in in
          rw tells (kept, refl, same, inl refl)
    ]

-- Why a call does not pass the barrier: the node has not started it, has not heard from all its
-- children, or has a parent that has not released it.
pub data Waits (st : State) (arrived released : Bool) : Type 0 where
  not_started : st.barrier.started ≡ false → Waits st arrived released
  missing : (count_child st arrived).barrier.replies < st.tree.children → Waits st arrived released
  held : (is_none st.tree.parent_rank || released) ≡ false → Waits st arrived released

-- What a call that passes the barrier has found and done.
pub record Passes (st : State) (left : ℕ) (arrived released : Bool) (st' : State) : Type 0 where
  pub everyone : st.tree.children ≤ st.barrier.replies + heard arrived
  pub free : (is_none st.tree.parent_rank || released) ≡ true
  pub messages_sent :
      st'.posted
      ≡ (barrier_up (count_child st arrived)).posted
        ++ messages Tag.barrier Payload.empty st.tree.children left
  pub again : st'.barrier ≡ record { started = false; up = false; replies = 0 }

test-closed :
    (st : State) (arrived released : Bool)
    → st.barrier.started ≡ false
    → barrier_test st arrived released ≡ ok (st, false)
unfolding barrier_test
test-closed st arrived released e = rw e refl

test-open :
    (st st1 : State) (arrived released : Bool) {go : Bool}
    → st.barrier.started ≡ true
    → barrier_up (count_child st arrived) ≡ st1
    → (st1.barrier.up && (is_none st1.tree.parent_rank || released)) ≡ go
    → barrier_test st arrived released ≡ (if go then barrier_finish st1 else ok (st1, false))
unfolding barrier_test
test-open st st1 arrived released s e g = rw (e, g, s) refl

and-parts : (a b : Bool) → (a && b) ≡ true → (a ≡ true) × (b ≡ true)
and-parts true b e = (refl, e)
and-parts false b e = cc e

and-second : (a b : Bool) → a ≡ true → (a && b) ≡ false → b ≡ false
and-second true b u e = e
and-second false b u e = cc u

-- The node when it has passed.
passed : State → ℕ → State
passed st left = record st {
  posted = st.posted ++ messages Tag.barrier Payload.empty st.tree.children left;
  barrier = record { started = false; up = false; replies = 0 };
}

passed-IsBarrier : (st : State) (left : ℕ) → IsBarrier st left → IsBarrier (passed st left) left
unfolding passed
passed-IsBarrier st left h = record {
  counted = omega arith;
  told_after = inl refl;
  child = h.child;
}

sends-down :
    (st : State) (left : ℕ) → IsBarrier st left → barrier_finish st ≡ ok (passed st left, true)
unfolding passed barrier_finish
sends-down st left h =
    let sent =
      send_down-messages Tag.barrier Payload.empty st.tree.children 0 left st
        λ j lt. let e : 0 + j ≡ j = omega arith in rw e (h.child j lt) in
    rw sent refl

-- A call of the test on a node of the tree returns without a fault and keeps what the node knows of
-- its children. It returns 0, for one of three reasons: the barrier has not been started, some child
-- is missing, or the parent has not released it. Or it returns 1: then the barrier was started, all
-- children have come, the node is the root or released by its parent, every child has been sent one
-- message, and the node is ready for another barrier.
pub barrier_test-IsBarrier :
    (st : State) (left : ℕ) (arrived released : Bool)
    → IsBarrier st left
    → (st' : State) × IsBarrier st' left
      × (((barrier_test st arrived released ≡ ok (st', false)) × Waits st arrived released)
          ⊎ ((barrier_test st arrived released ≡ ok (st', true))
              × (st.barrier.started ≡ true)
              × Passes st left arrived released st'))
unfolding passed
barrier_test-IsBarrier st left arrived released h = elim (Bool-cases st.barrier.started) [
  | inr closed ↦ (st, h, inl (test-closed st arrived released closed, not_started closed))
  | inl started ↦
      let (h1, few, tree1) = count_child-IsBarrier st left arrived h in
      let (h2, same, tree2, told) = barrier_up-IsBarrier (count_child st arrived) left h1 in
      let st1 = barrier_up (count_child st arrived) in
      let tree : st1.tree ≡ st.tree = tree2 ∙ tree1 in
      let open_ =
        λ (go : Bool) (e : (st1.barrier.up && (is_none st1.tree.parent_rank || released)) ≡ go).
          test-open st st1 arrived released started refl e in
      let free : (is_none st1.tree.parent_rank || released)
          ≡ (is_none st.tree.parent_rank || released) =
        ap (λ (t : Tree). is_none t.parent_rank || released) tree in
      let size : st1.tree.children ≡ st.tree.children = ap (λ (t : Tree). t.children) tree in
      let size1 : (count_child st arrived).tree.children ≡ st.tree.children =
        ap (λ (t : Tree). t.children) tree1 in
      elim (Bool-cases (st1.barrier.up && (is_none st1.tree.parent_rank || released))) [
        | inr stays ↦ (
          st1,
          h2,
          inl (
            open_ false stays,
            elim told [
              | inl u ↦ held (sym free ∙ and-second st1.barrier.up _ u stays)
              | inr few_in ↦ missing (omega (arith, few_in, size1))
            ],
          ),
        )
        | inl goes ↦
            let (u, f) = and-parts st1.barrier.up _ goes in
            let all_in : st1.barrier.replies ≡ st1.tree.children = elim h2.told_after [
              | inl down ↦ cc (u, down)
              | inr e ↦ e
            ] in
            (
              passed st1 left,
              passed-IsBarrier st1 left h2,
              inr (
                open_ true goes ∙ sends-down st1 left h2,
                started,
                record {
                  everyone = omega (arith, all_in, size, same, few);
                  free = sym free ∙ f;
                  messages_sent =
                      ap
                        (λ (t : Tree).
                          st1.posted ++ messages Tag.barrier Payload.empty t.children left)
                        tree;
                  again = refl;
                },
              ),
            )
      ]
]
