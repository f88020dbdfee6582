-- ===== src/Collective/Flow.antt =====
-- The reduction for termination over all ranks, with transfers of work under way, as a transition
-- system: in any order ranks finish their work, give work away, receive it and its receipts, and call
-- CIRCLE_check_for_term_allreduce while they have no work. Messages under way: `up` from a rank to its
-- parent and `down` from the parent to the rank, the transfers `work` with their source and their
-- destination, and for each rank how many `receipts`. `busy` says whose queue holds an item.
pub mod Back
pub mod Calls
pub mod Count
pub mod Phase
pub mod Root
pub mod Safe
pub mod Seat
pub mod Settle
pub mod Transfer
pub mod Turn
pub mod Watch
use libcircle.Prelude.{
  ℕ, zero, suc, ◌+◌, ◌-◌, ◌*◌, ◌<◌, ◌≡◌, Bool, true, false, ◌&&◌, Option, none, some, List, [], ◌∷◌,
  ◌++◌, ltb, leb, if◌then◌else◌, update, ◌⊎◌,
}
use libcircle.C.{ok}
use libcircle.State.{Color, State}
use libcircle.Tree.Node.{IsNode}
use libcircle.Collective.{gather, check_for_term_allreduce}
use libcircle.Request.{workreceipt_check}

pub record Flow : Type 0 where
  pub rank : ℕ → State
  pub busy : ℕ → Bool
  pub up : ℕ → Option Bool
  pub down : ℕ → Option Bool
  pub work : List (ℕ × ℕ)
  pub receipts : ℕ → ℕ

-- The fields that the reduction reads are as they were.
pub record Leaves (st st' : State) : Type 0 where
  pub term : st'.term ≡ st.term
  pub tree : st'.tree ≡ st.tree
  pub outstanding : st'.work_outstanding ≡ st.work_outstanding

-- A transfer more is outstanding.
pub record Gives (st st' : State) : Type 0 where
  pub term : st'.term ≡ st.term
  pub tree : st'.tree ≡ st.tree
  pub outstanding : st'.work_outstanding ≡ st.work_outstanding + 1

-- The messages to the `m` ranks from `first` on.
abbrev pub answers : (first m : ℕ) → Bool → (ℕ → Option Bool) → ℕ → Option Bool
answers first m result down c = if leb first c && ltb c (first + m) then some result else down c

-- Rank `p` has taken in the message of its child `c`.
abbrev pub collected : Flow → (p c : ℕ) → Bool → Flow
collected r p c flag = record r {
  rank = update r.rank p (gather (r.rank p) (flag ∷ []));
  up = update r.up c none;
}

-- The steps of `n` ranks in a tree of width `k`. A call of the check is a sequence of `collect`, one
-- for each message from a child that it finds, with `report` or `settle`, or with `answer`, where it
-- goes that far.
pub data Step (n k : ℕ) (r : Flow) : Flow → Type 0 where
  finish : (i : ℕ) → Step n k r (record r { busy = update r.busy i false })
  other :
      (i : ℕ) (st : State)
      → i < n
      → Leaves (r.rank i) st
      → Step n k r (record r { rank = update r.rank i st })
  give :
      (i j : ℕ) (st : State)
      → i < n
      → j < n
      → r.busy i ≡ true
      → Gives (r.rank i) st
      → Step n k r (record r { rank = update r.rank i st; work = (i, j) ∷ r.work })
  receive :
      (i j : ℕ) (before after : List (ℕ × ℕ))
      → r.work ≡ before ++ (i, j) ∷ after
      → Step n k r (record r {
        busy = update r.busy j true;
        work = before ++ after;
        receipts = update r.receipts i (r.receipts i + 1);
      })
  receipt :
      (i : ℕ)
      → i < n
      → 0 < r.receipts i
      → Step n k r (record r {
        rank = update r.rank i (workreceipt_check (r.rank i) 1);
        receipts = update r.receipts i (r.receipts i - 1);
      })
  collect :
      (p c : ℕ) (flag : Bool)
      → p < n
      → c < n
      → r.busy p ≡ false
      → (r.rank p).term.replies < (r.rank p).tree.children
      → (r.rank c).tree.parent_rank ≡ some p
      → r.up c ≡ some flag
      → Step n k r (collected r p c flag)
  report :
      (i p : ℕ) (st : State) (color : Color)
      → i < n
      → r.busy i ≡ false
      → (r.rank i).tree.parent_rank ≡ some p
      → (r.rank i).term.up ≡ false
      → (r.rank i).term.replies ≡ (r.rank i).tree.children
      → (r.rank i).work_outstanding ≡ 0
      → check_for_term_allreduce (r.rank i) [] none ≡ ok (st, color)
      → Step n k r
          (record r { rank = update r.rank i st; up = update r.up i (some (r.rank i).term.flag) })
  answer :
      (i p : ℕ) (result : Bool) (st : State) (color : Color)
      → i < n
      → r.busy i ≡ false
      → (r.rank i).tree.parent_rank ≡ some p
      → (r.rank i).term.up ≡ true
      → r.down i ≡ some result
      → (r.rank i).work_outstanding ≡ 0
      → check_for_term_allreduce (r.rank i) [] (some result) ≡ ok (st, color)
      → Step n k r (record r {
        rank = update r.rank i st;
        down = answers (i * k + 1) (r.rank i).tree.children result (update r.down i none);
      })
  settle :
      (i : ℕ) (st : State) (color : Color)
      → i < n
      → r.busy i ≡ false
      → (r.rank i).tree.parent_rank ≡ none
      → (r.rank i).term.up ≡ false
      → (r.rank i).term.replies ≡ (r.rank i).tree.children
      → (r.rank i).work_outstanding ≡ 0
      → check_for_term_allreduce (r.rank i) [] none ≡ ok (st, color)
      → Step n k r (record r {
        rank = update r.rank i st;
        down = answers (i * k + 1) (r.rank i).tree.children (r.rank i).term.flag r.down;
      })

pub data Reach (n k : ℕ) (r : Flow) : Flow → Type 0 where
  start : Reach n k r r
  later : {s t : Flow} → Reach n k r s → Step n k s t → Reach n k r t

-- The messages of children that one call of rank `p` finds, in order.
pub data Collects (n p : ℕ) : Flow → List Bool → Type 0 where
  none_left : (r : Flow) → Collects n p r []
  one_more :
      (r : Flow) (c : ℕ) (flag : Bool) {flags : List Bool}
      → c < n
      → (r.rank p).term.replies < (r.rank p).tree.children
      → (r.rank c).tree.parent_rank ≡ some p
      → r.up c ≡ some flag
      → Collects n p (collected r p c flag) flags
      → Collects n p r (flag ∷ flags)

-- All ranks have their places in the tree, no reduction has begun, and no transfer is under way. Any
-- rank may have work.
pub record IsStart (n k : ℕ) (r : Flow) : Type 0 where
  pub node : (i : ℕ) → i < n → IsNode i n k (r.rank i).tree
  pub is_down : (i : ℕ) → i < n → (r.rank i).term.up ≡ false
  pub none_heard : (i : ℕ) → i < n → (r.rank i).term.replies ≡ 0
  pub owes_none : (i : ℕ) → i < n → (r.rank i).work_outstanding ≡ 0
  pub no_report : (i : ℕ) → i < n → r.up i ≡ none
  pub no_answer : (i : ℕ) → i < n → r.down i ≡ none
  pub no_work : r.work ≡ []
  pub no_receipt : (i : ℕ) → i < n → r.receipts i ≡ 0

-- No rank has work, and neither work nor a receipt of it is on its way.
abbrev pub Quiet : ℕ → Flow → Type 0
Quiet n r =
    ((i : ℕ) → i < n → r.busy i ≡ false) × (r.work ≡ []) × ((i : ℕ) → i < n → r.receipts i ≡ 0)
