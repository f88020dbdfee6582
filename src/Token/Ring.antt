-- ===== src/Token/Ring.antt =====
-- The ranks of a communicator in the ring of the token, as a transition system: in any order ranks
-- finish their work, give work away, and call CIRCLE_check_for_term while they have none. `busy` says
-- whose queue holds an item, and `flight` is the token on its way, with its destination. A transfer of
-- work is one step: the system is that of a network on which the answer to a request is there before
-- a token that has left later.
pub mod Late
pub mod Phase
pub mod Safe
pub mod Told
use libcircle.Prelude.{
  ℕ, ◌+◌, ◌<◌, ◌≡◌, true, false, Bool, Option, none, some, ltb, if◌then◌else◌, update,
}
use libcircle.State.{Color, State}
use libcircle.Token.{is_terminate, check_for_term}
use libcircle.Transfer.{blacken}

pub record Ring : Type 0 where
  pub rank : ℕ → State
  pub busy : ℕ → Bool
  pub flight : Option (ℕ × Color)

-- `(rank + 1 + size) % size` for the ranks of a ring.
abbrev pub next_of : ℕ → ℕ → ℕ
next_of n i = if ltb (i + 1) n then i + 1 else 0

-- The token is on its way while the send of it has not been waited for.
abbrev pub departure : State → Option (ℕ × Color)
departure st = if st.token.sending then some (st.token.dest, st.token.buf) else none

-- Rank `i` has a new state, and what it has sent is on its way.
abbrev pub moved : Ring → ℕ → State → Ring
moved r i st = record r { rank = update r.rank i st; flight = departure st }

-- Rank `i` calls the check; `token` is what its probe finds.
abbrev pub check_at : Ring → ℕ → Option Color → Ring
check_at r i token = moved r i (check_for_term (r.rank i) token).0

-- Rank `i` gives work to `j`, by the rule of CIRCLE_send_work.
abbrev pub give : Ring → ℕ → ℕ → Ring
give r i j = record r { rank = update r.rank i (blacken (r.rank i) j); busy = update r.busy j true }

-- The steps of `n` ranks. A rank that has been told to stop does not check again, and a check that
-- neither has the token nor finds it changes nothing.
pub data Step (n : ℕ) (r : Ring) : Ring → Type 0 where
  finish : (i : ℕ) → Step n r (record r { busy = update r.busy i false })
  deal : (i j : ℕ) → i < n → j < n → r.busy i ≡ true → Step n r (give r i j)
  pass :
      (i : ℕ)
      → i < n
      → r.busy i ≡ false
      → is_terminate (r.rank i).token.proc ≡ false
      → (r.rank i).token.is_local ≡ true
      → Step n r (check_at r i none)
  arrive :
      (i : ℕ) (token : Color)
      → i < n
      → r.busy i ≡ false
      → is_terminate (r.rank i).token.proc ≡ false
      → (r.rank i).token.is_local ≡ false
      → r.flight ≡ some (i, token)
      → Step n r (check_at r i (some token))

pub data Reach (n : ℕ) (r : Ring) : Ring → Type 0 where
  start : Reach n r r
  later : {s t : Ring} → Reach n r s → Step n s t → Reach n r t

-- A rank that has set up its fields: the first has the token.
pub record IsPlaced (n i : ℕ) (st : State) : Type 0 where
  pub own : st.rank ≡ i
  pub dest : st.token.dest ≡ next_of n i
  pub no_abort : st.abort_flag ≡ false

-- All ranks are set up, none has been told to stop, and the first has the token. Any of them may have
-- work.
pub record IsStart (n : ℕ) (r : Ring) : Type 0 where
  pub placed : (i : ℕ) → i < n → IsPlaced n i (r.rank i)
  pub running : (i : ℕ) → i < n → is_terminate (r.rank i).token.proc ≡ false
  pub first : (i : ℕ) → i < n → (r.rank i).token.is_local ≡ true → i ≡ 0
  pub holds : 0 < n → (r.rank 0).token.is_local ≡ true
  pub none_flies : r.flight ≡ none
