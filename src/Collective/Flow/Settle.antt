-- ===== src/Collective/Flow/Settle.antt =====
-- The call of the root that has the result.
use mathlib.Core.Path.{subst}
use libcircle.Prelude.{
  ℕ, zero, suc, ◌+◌, ◌*◌, ◌≡◌, ◌<◌, Bool, true, false, [], none, update, update_same, refl, sym,
  ◌∙◌, ap, arith, inl, inr, Bool-cases,
}
use libcircle.C.{ok}
use libcircle.State.{Color, State}
use libcircle.Collective.{check_for_term_allreduce}
use libcircle.Collective.Flow.{Flow, answers, Quiet}
use libcircle.Collective.Flow.Calls.{settle-Does}
use libcircle.Collective.Flow.Root.{all-told, none_flies, settle-IsTurn}
use libcircle.Collective.Flow.Seat.{Seats, Seats-step, Seats-IsFamily, first_child}
use libcircle.Collective.Flow.Turn.{IsTurn}
use libcircle.Collective.Flow.Watch.{IsWatched, IsBalanced, settle-calm, settled-IsBalanced}
use libcircle.Collective.{check_for_term_allreduce}
use libcircle.Collective.Flow.Phase.{Phase, running, over}

-- When the root has a result that is set, no rank has work, and none is on its way.
pub root_stops :
    {n k : ℕ} {r : Flow} {kids replies owed : ℕ → ℕ} {up flag told : ℕ → Bool}
    → 0 < k
    → (lt : 0 < n) → r.busy 0 ≡ false
    → (r.rank 0).term.replies ≡ (r.rank 0).tree.children
    → (r.rank 0).work_outstanding ≡ 0
    → (r.rank 0).term.flag ≡ true
    → Seats n k r.rank kids up replies flag owed
    → IsTurn n (first_child k) kids up replies r.up r.down told
    → IsWatched n r.busy flag owed r.up told
    → IsBalanced n owed r.work r.receipts
    → Quiet n r
root_stops wide lt b all settled set seats turn watch balance =
    let s = seats 0 lt in
    let fam = Seats-IsFamily wide seats in
    let full = sym s.heard ∙ all ∙ s.children in
    let calm =
      settle-calm watch (sym s.flag_is ∙ set) (sym s.owes ∙ settled) b
        (λ c h lt'. (all-told fam turn lt full c h lt').0)
        (λ c lt'. (none_flies fam turn lt full c lt').0) in
    let (none_, done) = settled-IsBalanced balance (λ i lt'. (calm i lt').1) in
    (λ i lt'. (calm i lt').0, none_, done)

-- The root has the result.
pub settle-Phase :
    {n k : ℕ} {r : Flow} (i : ℕ) (st : State) (color : Color)
    → 0 < k
    → i < n
    → r.busy i ≡ false
    → (r.rank i).tree.parent_rank ≡ none
    → (r.rank i).term.up ≡ false
    → (r.rank i).term.replies ≡ (r.rank i).tree.children
    → (r.rank i).work_outstanding ≡ 0
    → check_for_term_allreduce (r.rank i) [] none ≡ ok (st, color)
    → Phase n k r
    → Phase n k (record r {
      rank = update r.rank i st;
      down = answers (i * k + 1) (r.rank i).tree.children (r.rank i).term.flag r.down;
    })
settle-Phase i st color wide lt b parent u all settled run (over (idle, none_, done)) =
    over (idle, none_, done)
settle-Phase (suc i) st color wide lt b parent u all settled run
      (running kids replies owed up flag told seats turn watch balance) =
    cc ((seats (suc i) lt).node.above (omega arith), parent)
settle-Phase {n} {k} {r} zero st color wide lt b parent u all settled run
      (running kids replies owed up flag told seats turn watch balance) =
    let s = seats 0 lt in
    let fam = Seats-IsFamily wide seats in
    let full : replies 0 ≡ kids 0 = sym s.heard ∙ all ∙ s.children in
    elim (Bool-cases (r.rank 0).term.flag) [
      | inl set ↦ over (root_stops wide lt b all settled set seats turn watch balance)
      | inr low ↦
          let turn' = settle-IsTurn fam turn lt full in
          let seats' =
            Seats-step 0 seats lt
              (settle-Does (r.rank 0) st (first_child k 0) none color parent s.node.child u all
                settled run).0
              (ap (update up 0) (sym turn.root) ∙ update_same up 0) refl refl
              (ap (update owed 0) s.owes ∙ update_same owed 0) in
          running kids (update replies 0 0) owed up (update flag 0 true) (λ _. false) seats'
            (subst
              (λ m.
                IsTurn n (first_child k) kids up (update replies 0 0) r.up
                  (answers (first_child k 0) m (r.rank 0).term.flag r.down) (λ _. false))
              (sym s.children)
              (subst
                (λ f.
                  IsTurn n (first_child k) kids up (update replies 0 0) r.up
                    (answers (first_child k 0) (kids 0) f r.down) (λ _. false))
                (sym low) turn'))
            (inr (λ j lt' t. cc t)) balance
    ]
