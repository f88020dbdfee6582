-- ===== src/Collective/Reduce.antt =====
-- A node's part in the reduction that decides on termination.
use libcircle.Prelude.{
  ℕ, suc, ◌+◌, ◌<◌, ◌≤◌, ◌≡◌, refl, ◌∙◌, Bool, true, false, ◌&&◌, Option, none, some, List, [], ◌∷◌,
  ◌++◌, arith, get_elem?, length, lt→ltb, ltb, ◌==◌, ==_iff, if◌then◌else◌, is_none,
}
use libcircle.C.{ok}
use libcircle.Sends.{Payload}
use libcircle.State.{Tag, Color, Post, State}
use libcircle.Collective.{int_of, gather, term_up, term_down, await, check_for_term_allreduce}
use libcircle.Collective.Down.{messages, send_down-messages}

-- A flag with those of the children.
unfoldable pub conjunction : Bool → List Bool → Bool
conjunction f [] = f
conjunction f (g ∷ flags) = conjunction (f && g) flags

pub conjunction-false : (flags : List Bool) → conjunction false flags ≡ false
unfolding conjunction
conjunction-false [] = refl
conjunction-false (f ∷ flags) = conjunction-false flags

-- A node whose children are the ranks from `left` on, before a reduction, with no transfer under way.
pub record IsFresh (st : State) (left : ℕ) : Type 0 where
  pub down : st.term.up ≡ false
  pub none_yet : st.term.replies ≡ 0
  pub settled : st.work_outstanding ≡ 0
  pub child :
      (j : ℕ) → j < st.tree.children → get_elem? st.tree.child_ranks j ≡ some (some (left + j))

-- The node when the flags of its children are in.
abbrev pub gathered : State → List Bool → State
gathered st flags = record st {
  term = record (st.term) {
    flag = conjunction st.term.flag flags;
    replies = st.term.replies + length flags;
  };
}

gather-all :
    (st : State) (flags : List Bool)
    → st.term.replies + length flags ≤ st.tree.children
    → gather st flags ≡ gathered st flags
unfolding gather conjunction
gather-all st [] le = let e : st.term.replies + 0 ≡ st.term.replies = omega arith in rw e refl
gather-all st (f ∷ flags) le =
    let e : st.term.replies + 1 + length flags ≡ st.term.replies + suc (length flags) =
      omega arith in
    let next = record st {
      term = record (st.term) { flag = st.term.flag && f; replies = st.term.replies + 1 };
    } in
    rw (lt→ltb st.term.replies st.tree.children (omega arith), ← e)
      (gather-all next flags (omega arith))

pub term_down-messages :
    (st : State) (left : ℕ) (result : Bool)
    → ((j : ℕ) → j < st.tree.children → get_elem? st.tree.child_ranks j ≡ some (some (left + j)))
    → term_down st result
      ≡ ok (
        record st {
          posted =
              st.posted
              ++ messages Tag.term (Payload.ints (int_of result ∷ [])) st.tree.children left;
          term = record (st.term) { up = false; replies = 0 };
        },
        if result then Color.terminate else Color.white,
      )
unfolding term_down
term_down-messages st left result h =
    let sent =
      send_down-messages Tag.term (Payload.ints (int_of result ∷ [])) st.tree.children 0 left st
        λ j lt. let e : 0 + j ≡ j = omega arith in rw e (h j lt) in
    rw sent refl

-- The node when its flag has gone up, or, at the root, has become the result.
abbrev pub told : State → List Post → State
told st posted = record st { posted = posted; term = record (st.term) { flag = true; up = true } }

-- The message with which a node tells its parent.
abbrev pub report : State → Option ℕ → List Post
report st none = st.posted
report st (some rank) =
    st.posted
    ++ (record { dest = rank; tag = Tag.term; payload = Payload.ints (int_of st.term.flag ∷ []) }
        ∷ [])

pub term_up-root :
    (st : State)
    → st.term.up ≡ false
    → (st.term.replies == st.tree.children) ≡ true
    → st.tree.parent_rank ≡ none
    → term_up st ≡ (told st st.posted, st.term.flag)
unfolding term_up
term_up-root st u n p = rw (u, n, p) refl

pub term_up-inner :
    (st : State) (rank : ℕ)
    → st.term.up ≡ false
    → (st.term.replies == st.tree.children) ≡ true
    → st.tree.parent_rank ≡ some rank
    → term_up st ≡ (told st (report st (some rank)), false)
unfolding term_up
term_up-inner st rank u n p = rw (u, n, p) refl

-- A node that has told its parent does not do so again.
pub term_up-told : (st : State) → st.term.up ≡ true → term_up st ≡ (st, false)
unfolding term_up
term_up-told st u = rw u refl

pub at_root :
    {A : Type 0} (parent : Option ℕ)
    → parent ≡ none
    → (x y : A) → (if is_none parent then x else y) ≡ x
at_root parent p x y = rw p refl

pub inside :
    {A : Type 0} (parent : Option ℕ) {rank : ℕ}
    → parent ≡ some rank
    → (x y : A) → (if is_none parent then x else y) ≡ y
inside parent p x y = rw p refl

pub allreduce-runs :
    (st st1 st2 : State) (arrived : List Bool) (released : Option Bool) {flag : Bool}
    → gather st arrived ≡ st1
    → ltb 0 st1.work_outstanding ≡ false
    → term_up st1 ≡ (st2, flag)
    → st2.term.up ≡ true
    → check_for_term_allreduce st arrived released
      ≡ (if is_none st2.tree.parent_rank then term_down st2 flag else await st2 released)
unfolding check_for_term_allreduce
allreduce-runs st st1 st2 arrived released e w t u = rw (e, w, t, u) refl

module _ (st : State) (left : ℕ) (h : IsFresh st left) (flags : List Bool)
    (n : length flags ≡ st.tree.children) where
  all_in : (st.term.replies + length flags == st.tree.children) ≡ true
  all_in =
      (==_iff (st.term.replies + length flags) st.tree.children).1 (omega (arith, h.none_yet, n))

  collected : gather st flags ≡ gathered st flags
  collected = gather-all st flags (omega (arith, h.none_yet, n))

  no_wait : ltb 0 st.work_outstanding ≡ false
  no_wait = rw h.settled refl

  -- At the root, when the flags of all children are in and no transfer is under way, one call sends
  -- the conjunction of the flags to every child, and returns TERMINATE exactly where it is 1.
  pub allreduce-root :
      (released : Option Bool)
      → st.tree.parent_rank ≡ none
      → let result = conjunction st.term.flag flags in
        check_for_term_allreduce st flags released
        ≡ ok (
          record st {
            posted =
                st.posted
                ++ messages Tag.term (Payload.ints (int_of result ∷ [])) st.tree.children left;
            term = record { flag = true; up = false; replies = 0 };
          },
          if result then Color.terminate else Color.white,
        )
  allreduce-root released p =
      let st1 = gathered st flags in
      let st2 = told st1 st.posted in
      let result = conjunction st.term.flag flags in
      let t = term_up-root st1 h.down all_in p in
      allreduce-runs st st1 st2 flags released collected no_wait t refl
      ∙ at_root (st.tree.parent_rank) p (term_down st2 result) (await st2 released)
      ∙ term_down-messages st2 left result h.child

  -- At another node, when the flags of all children are in and no transfer is under way, a call that
  -- finds no result sends the conjunction of the flags to the parent, and returns WHITE; the next
  -- call that finds the parent's result sends it to every child, and returns TERMINATE exactly where
  -- it is 1. The node is then ready for another reduction.
  pub allreduce-inner :
      (rank : ℕ) (result : Bool)
      → st.tree.parent_rank ≡ some rank
      → let waiting = told (gathered st flags) (report (gathered st flags) (some rank)) in
        (check_for_term_allreduce st flags none ≡ ok (waiting, Color.white))
        × (check_for_term_allreduce waiting [] (some result)
            ≡ ok (
              record st {
                posted =
                    waiting.posted
                    ++ messages Tag.term (Payload.ints (int_of result ∷ [])) st.tree.children left;
                term = record { flag = true; up = false; replies = 0 };
              },
              if result then Color.terminate else Color.white,
            ))
  unfolding await gather
  allreduce-inner rank result p =
      let st1 = gathered st flags in
      let st2 = told st1 (report st1 (some rank)) in
      let t = term_up-inner st1 rank h.down all_in p in
      (
        allreduce-runs st st1 st2 flags none collected no_wait t refl
            ∙ inside (st.tree.parent_rank) p (term_down st2 false) (await st2 none),
        allreduce-runs st2 st2 st2 [] (some result) refl no_wait (term_up-told st2 refl) refl
            ∙ inside (st.tree.parent_rank) p (term_down st2 false) (await st2 (some result))
            ∙ term_down-messages st2 left result h.child,
      )
