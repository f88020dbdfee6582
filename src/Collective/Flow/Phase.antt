-- ===== src/Collective/Flow/Phase.antt =====
-- What holds while the ranks run, and that their calls keep it.
use mathlib.Core.Path.{subst}
use libcircle.Prelude.{
  ℕ, ◌+◌, ◌-◌, ◌*◌, ◌≡◌, ◌≢◌, ◌<◌, Bool, true, false, ◌&&◌, List, [], ◌∷◌, ◌++◌, none, some, update,
  update_same, refl, sym, ◌∙◌, ap, arith, Option-cases, inl, inr, update-each,
}
use libcircle.C.{ok}
use libcircle.State.{Color, State}
use libcircle.Collective.{gather, check_for_term_allreduce}
use libcircle.Request.{workreceipt_check}
use libcircle.Collective.Flow.{Flow, Leaves, Gives, answers, Quiet}
use libcircle.Collective.Flow.Back.{answer-IsTurn}
use libcircle.Collective.Flow.Calls.{Does, report-Does, answer-Does, collect-Does, receipt-Does}
use libcircle.Collective.Flow.Seat.{
  IsSeat, Seats, Seats-step, Seats-IsFamily, first_child, child_of,
}
use libcircle.Collective.Flow.Turn.{IsTurn, report-IsTurn, collect-IsTurn}
use libcircle.Collective.Flow.Watch.{
  IsWatched, IsBalanced, finish-IsWatched, receive-IsWatched, give-IsWatched, receipt-IsWatched,
  collect-IsWatched, report-IsWatched, give-IsBalanced, receipt-IsBalanced, receive-IsBalanced,
}

-- A reduction is under way, or no rank has work and none is on its way.
pub data Phase (n k : ℕ) (r : Flow) : Type 0 where
  running :
      (kids replies owed : ℕ → ℕ) (up flag told : ℕ → Bool)
      → Seats n k r.rank kids up replies flag owed
      → IsTurn n (first_child k) kids up replies r.up r.down told
      → IsWatched n r.busy flag owed r.up told
      → IsBalanced n owed r.work r.receipts
      → Phase n k r
  over : Quiet n r → Phase n k r

-- A call that leaves the fields, and one that gives work away.
Leaves-Does :
    {n k i kids replies owed : ℕ} {st st' : State} {up flag : Bool}
    → IsSeat n k i st kids up replies flag owed
    → Leaves st st'
    → Does st st' up replies flag owed
Leaves-Does s l = record {
  tree = l.tree;
  is_up = ap (λ t. t.up) l.term ∙ s.is_up;
  heard = ap (λ t. t.replies) l.term ∙ s.heard;
  flag_is = ap (λ t. t.flag) l.term ∙ s.flag_is;
  owes = l.outstanding ∙ s.owes;
}

Gives-Does :
    {n k i kids replies owed : ℕ} {st st' : State} {up flag : Bool}
    → IsSeat n k i st kids up replies flag owed
    → Gives st st'
    → Does st st' up replies flag (owed + 1)
Gives-Does s l = record {
  tree = l.tree;
  is_up = ap (λ t. t.up) l.term ∙ s.is_up;
  heard = ap (λ t. t.replies) l.term ∙ s.heard;
  flag_is = ap (λ t. t.flag) l.term ∙ s.flag_is;
  owes = l.outstanding ∙ ap (λ a. a + 1) s.owes;
}

pub finish-Phase :
    {n k : ℕ} {r : Flow} (i : ℕ)
    → Phase n k r
    → Phase n k (record r { busy = update r.busy i false })
finish-Phase i (running kids replies owed up flag told seats turn watch balance) =
    running kids replies owed up flag told seats turn (finish-IsWatched watch i) balance
finish-Phase {r} i (over (idle, none_, done)) = over (
  λ j lt. update-each (λ _ b. b ≡ false) r.busy i false j (λ _. refl) (λ _. idle j lt),
  none_,
  done,
)

pub other-Phase :
    {n k : ℕ} {r : Flow} (i : ℕ) (st : State)
    → i < n
    → Leaves (r.rank i) st
    → Phase n k r
    → Phase n k (record r { rank = update r.rank i st })
other-Phase i st lt l (running kids replies owed up flag told seats turn watch balance) =
    running kids replies owed up flag told
      (Seats-step i seats lt (Leaves-Does (seats i lt) l) (update_same up i) (update_same replies i)
        (update_same flag i) (update_same owed i))
      turn watch balance
other-Phase i st lt l (over (idle, none_, done)) = over (idle, none_, done)

pub give-Phase :
    {n k : ℕ} {r : Flow} (i j : ℕ) (st : State)
    → i < n
    → r.busy i ≡ true
    → Gives (r.rank i) st
    → Phase n k r
    → Phase n k (record r { rank = update r.rank i st; work = (i, j) ∷ r.work })
give-Phase i j st lt b l (running kids replies owed up flag told seats turn watch balance) =
    running kids replies (update owed i (owed i + 1)) up flag told
      (Seats-step i seats lt (Gives-Does (seats i lt) l) (update_same up i) (update_same replies i)
        (update_same flag i) refl)
      turn (give-IsWatched watch i lt b) (give-IsBalanced balance i j lt)
give-Phase i j st lt b l (over (idle, none_, done)) = cc (b, idle i lt)

pub receive-Phase :
    {n k : ℕ} {r : Flow} (i j : ℕ) (before after : List (ℕ × ℕ))
    → r.work ≡ before ++ (i, j) ∷ after
    → Phase n k r
    → Phase n k (record r {
      busy = update r.busy j true;
      work = before ++ after;
      receipts = update r.receipts i (r.receipts i + 1);
    })
receive-Phase i j before after e (running kids replies owed up flag told seats turn watch balance) =
    let (lt, some_, balance') = receive-IsBalanced balance i j before after e in
    running kids replies owed up flag told seats turn (receive-IsWatched watch i j lt some_)
      balance'
receive-Phase i j before after e (over (idle, none_, done)) =
    absurd (no_middle (i, j) before after (sym e ∙ none_))
  where
    no_middle : (x : ℕ × ℕ) (xs ys : List (ℕ × ℕ)) → xs ++ x ∷ ys ≡ [] → ⊥
    no_middle x [] ys e = cc e
    no_middle x (y ∷ xs) ys e = cc e

pub receipt-Phase :
    {n k : ℕ} {r : Flow} (i : ℕ)
    → i < n
    → 0 < r.receipts i
    → Phase n k r
    → Phase n k (record r {
      rank = update r.rank i (workreceipt_check (r.rank i) 1);
      receipts = update r.receipts i (r.receipts i - 1);
    })
receipt-Phase {r} i lt h (running kids replies owed up flag told seats turn watch balance) =
    let s = seats i lt in
    let some_ : 0 < owed i = omega (arith, h, balance.owes i lt) in
    let d = receipt-Does (r.rank i) (omega (arith, some_, s.owes)) in
    running kids replies (update owed i (owed i - 1)) up (update flag i false) told
      (Seats-step i seats lt d (ap (update up i) s.is_up ∙ update_same up i)
        (ap (update replies i) s.heard ∙ update_same replies i) refl
        (ap (λ o. update owed i (o - 1)) s.owes))
      turn (receipt-IsWatched watch i lt some_) (receipt-IsBalanced balance i h)
receipt-Phase i lt h (over (idle, none_, done)) = absurd (omega (arith, h, done i lt))

pub collect-Phase :
    {n k : ℕ} {r : Flow} (p c : ℕ) (f : Bool)
    → 0 < k
    → p < n
    → c < n
    → (r.rank p).term.replies < (r.rank p).tree.children
    → (r.rank c).tree.parent_rank ≡ some p
    → r.up c ≡ some f
    → Phase n k r
    → Phase n k
        (record r { rank = update r.rank p (gather (r.rank p) (f ∷ [])); up = update r.up c none })
collect-Phase {n} {k} {r} p c f wide lt lt' few parent flies
      (running kids replies owed up flag told seats turn watch balance) =
    let s = seats p lt in
    let fam = Seats-IsFamily wide seats in
    let fewer : replies p < kids p = omega (arith, few, s.heard, s.children) in
    let d = collect-Does (r.rank p) f few in
    let (j, inside, place) = child_of p c wide seats lt lt' parent in
    let open_ : told p ≡ false = ground (arith, turn.heard p lt, turn.full p lt, fewer) in
    let seats' =
      Seats-step p seats lt d (ap (update up p) s.is_up ∙ update_same up p)
        (ap (λ a. update replies p (a + 1)) s.heard) (ap (λ b. update flag p (b && f)) s.flag_is)
        (ap (update owed p) s.owes ∙ update_same owed p) in
    running kids (update replies p (replies p + 1)) owed up (update flag p (flag p && f)) told
      seats'
      (rw place
        (collect-IsTurn fam turn p j f lt inside fewer (subst (λ a. r.up a ≡ some f) place flies)))
      (collect-IsWatched watch p c f lt open_ flies) balance
collect-Phase p c f wide lt lt' few parent flies (over (idle, none_, done)) =
    over (idle, none_, done)

pub report-Phase :
    {n k : ℕ} {r : Flow} (i p : ℕ) (st : State) (color : Color)
    → 0 < k
    → i < n
    → r.busy i ≡ false
    → (r.rank i).tree.parent_rank ≡ some p
    → (r.rank i).term.up ≡ false
    → (r.rank i).term.replies ≡ (r.rank i).tree.children
    → (r.rank i).work_outstanding ≡ 0
    → check_for_term_allreduce (r.rank i) [] none ≡ ok (st, color)
    → Phase n k r
    → Phase n k
        (record r { rank = update r.rank i st; up = update r.up i (some (r.rank i).term.flag) })
report-Phase {n} {k} {r} i p st color wide lt b parent u all settled run
      (running kids replies owed up flag told seats turn watch balance) =
    let s = seats i lt in
    let fam = Seats-IsFamily wide seats in
    let low : up i ≡ false = sym s.is_up ∙ u in
    let inner : i ≢ 0 = λ e. cc (s.node.root e, parent) in
    let empty : r.up i ≡ none = elim (Option-cases (r.up i)) [
      | inl e ↦ e
      | inr (f, e) ↦ cc (low, (turn.heard i lt (turn.sent i lt f e)).0)
    ] in
    let seats' =
      Seats-step i seats lt (report-Does (r.rank i) st p color parent u all settled run).0 refl
        (ap (update replies i) s.heard ∙ update_same replies i) refl
        (ap (update owed i) s.owes ∙ update_same owed i) in
    running kids replies owed (update up i true) (update flag i true) (update told i true) seats'
      (report-IsTurn fam turn i (r.rank i).term.flag lt inner low (sym s.heard ∙ all ∙ s.children))
      (subst
        (λ f.
          IsWatched n r.busy (update flag i true) owed (update r.up i (some f))
            (update told i true))
        (sym s.flag_is) (report-IsWatched watch i lt b (sym s.owes ∙ settled) empty))
      balance
report-Phase i p st color wide lt b parent u all settled run (over (idle, none_, done)) =
    over (idle, none_, done)

pub answer-Phase :
    {n k : ℕ} {r : Flow} (i p : ℕ) (x : Bool) (st : State) (color : Color)
    → 0 < k
    → i < n
    → (r.rank i).tree.parent_rank ≡ some p
    → (r.rank i).term.up ≡ true
    → r.down i ≡ some x
    → (r.rank i).work_outstanding ≡ 0
    → check_for_term_allreduce (r.rank i) [] (some x) ≡ ok (st, color)
    → Phase n k r
    → Phase n k (record r {
      rank = update r.rank i st;
      down = answers (i * k + 1) (r.rank i).tree.children x (update r.down i none);
    })
answer-Phase {n} {k} {r} i p x st color wide lt parent u flies settled run
      (running kids replies owed up flag told seats turn watch balance) =
    let s = seats i lt in
    let fam = Seats-IsFamily wide seats in
    let (_, turn') = answer-IsTurn fam turn i x lt flies in
    let seats' =
      Seats-step i seats lt
        (answer-Does (r.rank i) st p (first_child k i) x color parent s.node.child u settled run).0
        refl refl (ap (update flag i) s.flag_is ∙ update_same flag i)
        (ap (update owed i) s.owes ∙ update_same owed i) in
    running kids (update replies i 0) owed (update up i false) flag told seats'
      (subst
        (λ m.
          IsTurn n (first_child k) kids (update up i false) (update replies i 0) r.up
            (answers (first_child k i) m x (update r.down i none)) told)
        (sym s.children) turn')
      watch balance
answer-Phase i p x st color wide lt parent u flies settled run (over (idle, none_, done)) =
    over (idle, none_, done)
