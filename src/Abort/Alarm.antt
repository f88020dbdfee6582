-- ===== src/Abort/Alarm.antt =====
-- The broadcast of an abort over all ranks, as a transition system: in any order users set the flag of
-- a rank with CIRCLE_abort, and ranks call CIRCLE_abort_check outside the cleanup phase. What a rank
-- has sent is in its field `posted`; `taken` says whose request a rank's probe has found already.
pub mod Reached
pub mod Told
use native.Mathlib.Decide.{ℕ_discrete}
use libcircle.Prelude.{ℕ, ◌+◌, ◌*◌, ◌<◌, ◌≡◌, Bool, true, false, Option, none, some, update}
use mathlib.Core.List.{Memᴰ}
use libcircle.C.{ok}
use libcircle.State.{Post, State}
use libcircle.Tree.Node.{IsNode}
use libcircle.Abort.Spread.{HasNeighbours}
use libcircle.Abort.Alarm.Told.{HasAsked}
use libcircle.Abort.{bcast_abort, abort_check}

pub record Alarm : Type 0 where
  pub rank : ℕ → State
  pub taken : ℕ → ℕ → Bool

-- The fields of the broadcast are as they were, and no message is taken back.
pub record Leaves (st st' : State) : Type 0 where
  pub abort : st'.abort ≡ st.abort
  pub flag : st'.abort_flag ≡ st.abort_flag
  pub tree : st'.tree ≡ st.tree
  pub older : (p : Post) → Memᴰ p st.posted → Memᴰ p st'.posted

-- The steps of `n` ranks.
pub data Step (n : ℕ) (r : Alarm) : Alarm → Type 0 where
  raise : (i : ℕ) → i < n → Step n r (record r { rank = update r.rank i (bcast_abort (r.rank i)) })
  other :
      (i : ℕ) (st : State)
      → i < n
      → Leaves (r.rank i) st
      → Step n r (record r { rank = update r.rank i st })
  check :
      (i : ℕ) (completed : Bool) (st : State)
      → i < n
      → abort_check (r.rank i) false none completed ≡ ok st
      → Step n r (record r { rank = update r.rank i st })
  obey :
      (i j : ℕ) (completed : Bool) (st : State)
      → i < n
      → j < n
      → HasAsked (r.rank j) i
      → r.taken i j ≡ false
      → abort_check (r.rank i) false (some j) completed ≡ ok st
      → Step n r (record r {
        rank = update r.rank i st;
        taken = update r.taken i (update (r.taken i) j true);
      })

pub data Reach (n : ℕ) (r : Alarm) : Alarm → Type 0 where
  start : Reach n r r
  later : {s t : Alarm} → Reach n r s → Step n s t → Reach n r t

-- All ranks have their places in the tree of width `k`, with room for their requests, and none is in
-- the abort state. Any may have its flag set.
pub record IsStart (n k : ℕ) (r : Alarm) : Type 0 where
  pub node : (i : ℕ) → i < n → IsNode i n k (r.rank i).tree
  pub neighbours : (i : ℕ) → i < n → HasNeighbours (r.rank i) (i * k + 1)
  pub quiet : (i : ℕ) → i < n → (r.rank i).abort.active ≡ false
  pub fresh : (i j : ℕ) → i < n → r.taken i j ≡ false

-- No request is under way, and each rank whose flag is set has called the check since.
pub record IsStill (n : ℕ) (r : Alarm) : Type 0 where
  pub arrived : (i j : ℕ) → i < n → j < n → HasAsked (r.rank j) i → r.taken i j ≡ true
  pub checked : (i : ℕ) → i < n → (r.rank i).abort_flag ≡ true → (r.rank i).abort.active ≡ true
