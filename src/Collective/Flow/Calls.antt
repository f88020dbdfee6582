-- ===== src/Collective/Flow/Calls.antt =====
-- The calls of CIRCLE_check_for_term_allreduce and of CIRCLE_workreceipt_check as steps of the system.
use libcircle.Prelude.{
  ℕ, ◌+◌, ◌-◌, ◌<◌, ◌≡◌, refl, sym, ◌∙◌, Bool, true, false, ◌&&◌, Option, none, some, List, [], ◌∷◌,
  ltb, ◌==◌, same-branches, ==_iff, if◌then◌else◌, get_elem?, lt→ltb, arith,
}
use libcircle.C.{Run, ok}
use libcircle.State.{Color, State}
use libcircle.Collective.{gather, term_up, term_down, await, check_for_term_allreduce}
use libcircle.Collective.Reduce.{
  told, report, term_down-messages, term_up-root, term_up-inner, term_up-told, at_root, inside,
  allreduce-runs,
}
use libcircle.Request.{workreceipt_check}

-- What a call does to the fields that the reduction reads.
pub record Does (st st' : State) (up : Bool) (replies : ℕ) (flag : Bool) (outstanding : ℕ)
    : Type 0 where
  pub tree : st'.tree ≡ st.tree
  pub is_up : st'.term.up ≡ up
  pub heard : st'.term.replies ≡ replies
  pub flag_is : st'.term.flag ≡ flag
  pub owes : st'.work_outstanding ≡ outstanding

ok_state :
    {st st' : State} {c c' : Color}
    → ◌≡◌ {A = Run (State × Color)} (ok (st, c)) (ok (st', c'))
    → st ≡ st'
ok_state e = cc e

ok_color :
    {st st' : State} {c c' : Color}
    → ◌≡◌ {A = Run (State × Color)} (ok (st, c)) (ok (st', c'))
    → c ≡ c'
ok_color e = cc e

no_wait : (st : State) → st.work_outstanding ≡ 0 → ltb 0 st.work_outstanding ≡ false
no_wait st e = rw e refl

pub report-Does :
    (st st' : State) (p : ℕ) (color : Color)
    → st.tree.parent_rank ≡ some p
    → st.term.up ≡ false
    → st.term.replies ≡ st.tree.children
    → st.work_outstanding ≡ 0
    → check_for_term_allreduce st [] none ≡ ok (st', color)
    → Does st st' true st.term.replies true st.work_outstanding × (color ≡ Color.white)
unfolding gather await
report-Does st st' p color parent u all settled run =
    let st2 = told st (report st (some p)) in
    let t = term_up-inner st p u ((==_iff _ _).1 all) parent in
    let e =
      allreduce-runs st st st2 [] none refl (no_wait st settled) t refl
      ∙ inside (st.tree.parent_rank) parent (term_down st2 false) (await st2 none) in
    let same = ok_state (sym e ∙ run) in
    (
      rw (sym same)
          (record { tree = refl; is_up = refl; heard = refl; flag_is = refl; owes = refl }),
      sym (ok_color (sym e ∙ run)),
    )

-- Where the children are in `tree`.
abbrev HasChildren : State → ℕ → Type 0
HasChildren st left =
    (j : ℕ) → j < st.tree.children → get_elem? st.tree.child_ranks j ≡ some (some (left + j))

pub answer-Does :
    (st st' : State) (p left : ℕ) (result : Bool) (color : Color)
    → st.tree.parent_rank ≡ some p
    → HasChildren st left
    → st.term.up ≡ true
    → st.work_outstanding ≡ 0
    → check_for_term_allreduce st [] (some result) ≡ ok (st', color)
    → Does st st' false 0 st.term.flag st.work_outstanding
      × (color ≡ (if result then Color.terminate else Color.white))
unfolding gather await
answer-Does st st' p left result color parent children u settled run =
    let e =
      allreduce-runs st st st [] (some result) refl (no_wait st settled) (term_up-told st u) u
      ∙ inside (st.tree.parent_rank) parent (term_down st false) (await st (some result))
      ∙ term_down-messages st left result children in
    let same = ok_state (sym e ∙ run) in
    (
      rw (sym same)
          (record { tree = refl; is_up = refl; heard = refl; flag_is = refl; owes = refl }),
      sym (ok_color (sym e ∙ run)),
    )

pub settle-Does :
    (st st' : State) (left : ℕ) (released : Option Bool) (color : Color)
    → st.tree.parent_rank ≡ none
    → HasChildren st left
    → st.term.up ≡ false
    → st.term.replies ≡ st.tree.children
    → st.work_outstanding ≡ 0
    → check_for_term_allreduce st [] released ≡ ok (st', color)
    → Does st st' false 0 true st.work_outstanding
      × (color ≡ (if st.term.flag then Color.terminate else Color.white))
unfolding gather await
settle-Does st st' left released color parent children u all settled run =
    let st2 = told st st.posted in
    let t = term_up-root st u ((==_iff _ _).1 all) parent in
    let e =
      allreduce-runs st st st2 [] released refl (no_wait st settled) t refl
      ∙ at_root (st.tree.parent_rank) parent (term_down st2 st.term.flag) (await st2 released)
      ∙ term_down-messages st2 left st.term.flag children in
    let same = ok_state (sym e ∙ run) in
    (
      rw (sym same)
          (record { tree = refl; is_up = refl; heard = refl; flag_is = refl; owes = refl }),
      sym (ok_color (sym e ∙ run)),
    )

-- Otherwise the call changes nothing: where transfers are outstanding,
pub check-owes :
    (st : State) (released : Option Bool)
    → 0 < st.work_outstanding
    → check_for_term_allreduce st [] released ≡ ok (st, Color.white)
unfolding check_for_term_allreduce gather
check-owes st released h = rw (lt→ltb 0 st.work_outstanding h) refl

-- or children are missing,
pub check-misses :
    (st : State) (released : Option Bool)
    → st.term.up ≡ false
    → st.term.replies < st.tree.children
    → check_for_term_allreduce st [] released ≡ ok (st, Color.white)
unfolding check_for_term_allreduce gather term_up
check-misses st released u few =
    let e : (st.term.replies == st.tree.children) ≡ false = ground arith in
    rw (u, e) (same-branches (ltb 0 st.work_outstanding) _)

-- or the answer.
pub check-waits :
    (st : State) (p : ℕ)
    → st.tree.parent_rank ≡ some p
    → st.term.up ≡ true
    → st.work_outstanding ≡ 0
    → check_for_term_allreduce st [] none ≡ ok (st, Color.white)
unfolding gather await
check-waits st p parent u settled =
    allreduce-runs st st st [] none refl (no_wait st settled) (term_up-told st u) u
    ∙ inside (st.tree.parent_rank) parent (term_down st false) (await st none)

-- A call that finds a message of a child goes on as one that starts after it.
pub check-collects :
    (st : State) (flag : Bool) (arrived : List Bool) (released : Option Bool)
    → st.term.replies < st.tree.children
    → check_for_term_allreduce st (flag ∷ arrived) released
      ≡ check_for_term_allreduce (gather st (flag ∷ [])) arrived released
unfolding check_for_term_allreduce gather
check-collects st flag arrived released few = rw (lt→ltb st.term.replies st.tree.children few) refl

pub collect-Does :
    (st : State) (flag : Bool)
    → st.term.replies < st.tree.children
    → Does st
        (gather st (flag ∷ []))
        st.term.up
        (st.term.replies + 1)
        (st.term.flag && flag)
        st.work_outstanding
unfolding gather
collect-Does st flag few =
    rw (lt→ltb st.term.replies st.tree.children few)
      (record { tree = refl; is_up = refl; heard = refl; flag_is = refl; owes = refl })

pub receipt-Does :
    (st : State)
    → 0 < st.work_outstanding
    → Does st (workreceipt_check st 1) st.term.up st.term.replies false (st.work_outstanding - 1)
unfolding workreceipt_check
receipt-Does st some_ =
    rw (lt→ltb 0 st.work_outstanding some_)
      (record { tree = refl; is_up = refl; heard = refl; flag_is = refl; owes = refl })
