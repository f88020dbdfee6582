-- ===== src/Collective/Flow/Safe.antt =====
-- No rank is told to stop while there is work.
use libcircle.Prelude.{
  ℕ, zero, suc, ◌+◌, ◌-◌, ◌≡◌, ◌<◌, Bool, true, false, List, [], ◌∷◌, Option, none, some,
  update_self, refl, sym, ◌∙◌, ap, arith, inl, inr, ◌⊎◌, ◌/◌, ltb, ltb→lt, ltb→le, if◌then◌else◌,
  Bool-cases,
}
use libcircle.C.{Run, ok}
use libcircle.State.{Color, State}
use libcircle.Collective.{gather, check_for_term_allreduce}
use libcircle.Collective.Flow.{
  Flow, Quiet, IsStart, Collects, collected, none_left, one_more, Step, finish, other, give,
  receive, receipt, collect, report, answer, settle, Reach, start, later,
}
use libcircle.Collective.Flow.Calls.{report-Does, answer-Does, settle-Does}
use libcircle.Collective.Flow.Seat.{IsSeat, Seats, first_child}
use libcircle.Collective.Flow.Turn.{IsTurn, got}
use libcircle.Collective.Flow.Watch.{IsWatched, IsBalanced, empty-IsBalanced}
use libcircle.Collective.{check_for_term_allreduce}
use libcircle.Collective.Flow.Calls.{check-owes, check-misses, check-waits, check-collects}
use libcircle.Collective.Flow.Count.{count_set-le, count_set-none}
use libcircle.Collective.Flow.Phase.{
  Phase, running, over, finish-Phase, other-Phase, give-Phase, receive-Phase, receipt-Phase,
  collect-Phase, report-Phase, answer-Phase,
}
use libcircle.Collective.Flow.Settle.{root_stops, settle-Phase}

ok_white :
    {run : Run (State × Color)} {st st' : State}
    → run ≡ ok (st, Color.white)
    → run ≡ ok (st', Color.terminate)
    → ⊥
ok_white e e' = cc (e, e')

Step-Phase : {n k : ℕ} {r s : Flow} → 0 < k → Step n k r s → Phase n k r → Phase n k s
Step-Phase wide (finish i) p = finish-Phase i p
Step-Phase wide (other i st lt l) p = other-Phase i st lt l p
Step-Phase wide (give i j st lt lt' b g) p = give-Phase i j st lt b g p
Step-Phase wide (receive i j before after e) p = receive-Phase i j before after e p
Step-Phase wide (receipt i lt h) p = receipt-Phase i lt h p
Step-Phase wide (collect q c f lt lt' b few parent e) p =
    collect-Phase q c f wide lt lt' few parent e p
Step-Phase wide (report i q st color lt b parent u all settled run) p =
    report-Phase i q st color wide lt b parent u all settled run p
Step-Phase wide (answer i q x st color lt b parent u e settled run) p =
    answer-Phase i q x st color wide lt parent u e settled run p
Step-Phase wide (settle i st color lt b parent u all settled run) p =
    settle-Phase i st color wide lt b parent u all settled run p

start-Phase : {n k : ℕ} {r : Flow} → 0 < k → 0 < n → IsStart n k r → Phase n k r
start-Phase {n} {k} {r} wide some_ s =
    running (λ i. (r.rank i).tree.children) (λ _. 0) (λ _. 0) (λ _. false)
      (λ i. (r.rank i).term.flag) (λ _. false)
      (λ i lt. record {
        node = s.node i lt;
        children = refl;
        is_up = s.is_down i lt;
        heard = s.none_heard i lt;
        flag_is = refl;
        owes = s.owes_none i lt;
      })
      (record {
        sent = λ i lt f e. cc (e, s.no_report i lt);
        back = λ i lt x e. cc (e, s.no_answer i lt);
        heard = λ i lt e. cc e;
        counted = λ p lt. sym (count_set-none _ _ (λ j inside. refl));
        full = λ p lt e. cc e;
        root = refl;
        pass = λ p j lt inside new e. cc e;
        late = λ p j lt inside e. cc e;
      })
      (inr (λ i lt e. cc e)) (empty-IsBalanced s.no_work s.no_receipt)

Reach-Phase : {n k : ℕ} {r s : Flow} → 0 < k → 0 < n → IsStart n k r → Reach n k r s → Phase n k s
Reach-Phase wide some_ i start = start-Phase wide some_ i
Reach-Phase wide some_ i (later p st) = Step-Phase wide st (Reach-Phase wide some_ i p)

module _ {n k : ℕ} {r : Flow} {kids replies owed : ℕ → ℕ} {up flag told : ℕ → Bool} (wide : 0 < k)
    (seats : Seats n k r.rank kids up replies flag owed)
    (turn : IsTurn n (first_child k) kids up replies r.up r.down told)
    (watch : IsWatched n r.busy flag owed r.up told)
    (balance : IsBalanced n owed r.work r.receipts) where
  -- A rank hears from no more children than it has.
  few_or_all :
      (i : ℕ)
      → i < n
      → ((r.rank i).term.replies < (r.rank i).tree.children)
        ⊎ ((r.rank i).term.replies ≡ (r.rank i).tree.children)
  few_or_all i lt =
      let s = seats i lt in
      let le = count_set-le (λ j. got up r.up r.down (first_child k i + j)) (kids i) in
      let e = s.heard ∙ turn.counted i lt in
      elim (Bool-cases (ltb (r.rank i).term.replies (r.rank i).tree.children)) [
        | inl few ↦ inl (ltb→lt _ _ few)
        | inr no_less ↦ inr (omega (arith, ltb→le _ _ no_less, le, e, s.children))
      ]

  -- The calls that return TERMINATE are those of the root that has the result: a result on its way was
  -- not set.
  inner_waits :
      (i p : ℕ) (rel : Option Bool) (st : State)
      → i < n
      → (r.rank i).tree.parent_rank ≡ some p
      → (rel ≡ none) ⊎ (rel ≡ r.down i)
      → (r.rank i).work_outstanding ≡ 0
      → check_for_term_allreduce (r.rank i) [] rel ≡ ok (st, Color.terminate)
      → ⊥
  inner_waits i p none st lt parent from settled run = elim (Bool-cases (up i)) [
    | inl u ↦ ok_white (check-waits (r.rank i) p parent (s.is_up ∙ u) settled) run
    | inr u ↦ elim (few_or_all i lt) [
      | inl few ↦ ok_white (check-misses (r.rank i) none (s.is_up ∙ u) few) run
      | inr all ↦
          cc (report-Does (r.rank i) st p Color.terminate parent (s.is_up ∙ u) all settled run).1
    ]
  ]
    where
      s : IsSeat n k i (r.rank i) (kids i) (up i) (replies i) (flag i) (owed i)
      s = seats i lt
  inner_waits i p (some x) st lt parent from settled run =
      let s = seats i lt in
      let (u, _, low) = turn.back i lt x (from_network from) in
      let answer =
        (answer-Does (r.rank i) st p (first_child k i) x Color.terminate parent s.node.child
          (s.is_up ∙ u) settled run).1 in
      cc (answer ∙ ap (λ b. if b then Color.terminate else Color.white) low)
    where
      from_network : (some x ≡ none) ⊎ (some x ≡ r.down i) → r.down i ≡ some x
      from_network (inl e) = cc e
      from_network (inr e) = sym e

  root_returns :
      (rel : Option Bool) (st : State)
      → (lt : 0 < n) → r.busy 0 ≡ false
      → (r.rank 0).work_outstanding ≡ 0
      → check_for_term_allreduce (r.rank 0) [] rel ≡ ok (st, Color.terminate)
      → Quiet n r
  root_returns rel st lt b settled run =
      let s = seats 0 lt in
      let u = s.is_up ∙ turn.root in
      elim (few_or_all 0 lt) [
        | inl few ↦ absurd (ok_white (check-misses (r.rank 0) rel u few) run)
        | inr all ↦
            let e =
              (settle-Does (r.rank 0) st (first_child k 0) rel Color.terminate (s.node.root refl)
                s.node.child u all settled run).1 in
            root_stops wide lt b all settled (is_set (r.rank 0).term.flag e) seats turn watch
              balance
      ]
    where
      is_set :
          (f : Bool) → Color.terminate ≡ (if f then Color.terminate else Color.white) → f ≡ true
      is_set true e = refl
      is_set false e = cc e

  returns :
      (i : ℕ) (rel : Option Bool) (st : State)
      → i < n
      → r.busy i ≡ false
      → (rel ≡ none) ⊎ (rel ≡ r.down i)
      → check_for_term_allreduce (r.rank i) [] rel ≡ ok (st, Color.terminate)
      → Quiet n r
  returns i rel st lt b from run = elim (Bool-cases (ltb 0 (r.rank i).work_outstanding)) [
    | inl owing ↦ absurd (ok_white (check-owes (r.rank i) rel (ltb→lt _ _ owing)) run)
    | inr none_ ↦ by_place i lt b from (omega (arith, ltb→le _ _ none_)) run
  ]
    where
      by_place :
          (i : ℕ)
          → i < n
          → r.busy i ≡ false
          → (rel ≡ none) ⊎ (rel ≡ r.down i)
          → (r.rank i).work_outstanding ≡ 0
          → check_for_term_allreduce (r.rank i) [] rel ≡ ok (st, Color.terminate)
          → Quiet n r
      by_place zero lt b from settled run = root_returns rel st lt b settled run
      by_place (suc i) lt b from settled run = absurd (
          inner_waits (suc i) ((suc i - 1) / k) rel st lt
            ((seats (suc i) lt).node.above (omega arith)) from settled run)

Reach-Quiet :
    {n k : ℕ} {r s : Flow} (i : ℕ) (released : Option Bool) (st : State)
    → 0 < k
    → IsStart n k r
    → Reach n k r s
    → i < n
    → s.busy i ≡ false
    → (released ≡ none) ⊎ (released ≡ s.down i)
    → check_for_term_allreduce (s.rank i) [] released ≡ ok (st, Color.terminate)
    → Quiet n s
Reach-Quiet {n} {k} {s} i released st wide h path lt b from run =
    stopped (Reach-Phase wide (omega arith) h path)
  where
    stopped : Phase n k s → Quiet n s
    stopped (running kids replies owed up flag told seats turn watch balance) =
        returns wide seats turn watch balance i released st lt b from run
    stopped (over quiet) = quiet

-- The claim that the comment in CIRCLE_work_loop argues for. Whatever the ranks do, in whatever order,
-- and however long transfers of work, their receipts and the messages of the reduction are on their
-- way: where a rank without work calls CIRCLE_check_for_term_allreduce and it returns TERMINATE, no
-- rank has work, and neither work nor a receipt of it is on its way. The call may find messages of
-- children, which it takes in, and the answer of its parent. At the start all ranks have their places
-- in a tree of positive width, no reduction has begun and no transfer is under way; any rank may have
-- work. No rank is in the abort state.
pub Reach-terminate :
    {n k : ℕ} {r s : Flow} (i : ℕ) (arrived : List Bool) (released : Option Bool) (st : State)
    → 0 < k
    → IsStart n k r
    → Reach n k r s
    → i < n
    → s.busy i ≡ false
    → Collects n i s arrived
    → (released ≡ none) ⊎ (released ≡ s.down i)
    → check_for_term_allreduce (s.rank i) arrived released ≡ ok (st, Color.terminate)
    → Quiet n s
Reach-terminate i [] released st wide h path lt b (none_left s) from run =
    Reach-Quiet i released st wide h path lt b from run
Reach-terminate i (_ ∷ arrived) released st wide h path lt b
      (one_more s c flag lt' few parent flies more) from run =
    let next = gather (s.rank i) (flag ∷ []) in
    Reach-terminate {s = collected s i c flag} i arrived released st wide h
      (later path (collect i c flag lt lt' b few parent flies)) lt b more from
      (rw (update_self s.rank i next)
        (sym (check-collects (s.rank i) flag arrived released few) ∙ run))
