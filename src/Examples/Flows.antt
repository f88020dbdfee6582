-- ===== src/Examples/Flows.antt =====
-- Two ranks end by the reduction, after the first has given work to the second.
use native.Mathlib.Decide.{ℕ_discrete}
use libcircle.Prelude.{
  update, ℕ, zero, suc, ◌+◌, ◌*◌, ◌<◌, ◌≡◌, refl, Bool, true, false, none, some, [], ◌∷◌, arith,
  inl, inr, get_elem?,
}
use libcircle.State.{State}
use libcircle.Tree.{Tree}
use libcircle.Tree.Node.{IsNode}
use libcircle.Collective.{gather, term_up, term_down, await, check_for_term_allreduce, send_down}
use libcircle.Request.{workreceipt_check}
use libcircle.Collective.Flow.{
  Flow, Reach, start, later, finish, give, receive, receipt, collect, report, answer, settle,
  none_left, one_more, IsStart, Quiet,
}
use libcircle.Collective.Flow.Safe.{Reach-terminate}
use libcircle.Examples.Sample.{idle}

-- A tree of width 1.
abbrev pub nodes : ℕ → Tree
nodes zero = record {
  rank = 0;
  ranks = 2;
  parent_rank = none;
  children = 1;
  child_ranks = some 1 ∷ [];
}
nodes (suc i) = record {
  rank = 1;
  ranks = 2;
  parent_rank = some 0;
  children = 0;
  child_ranks = none ∷ [];
}

pub only_child : (j : ℕ) → j < 1 → get_elem? (nodes 0).child_ranks j ≡ some (some (0 * 1 + 1 + j))
only_child zero lt = refl
only_child (suc j) lt = absurd (omega arith)

pub nodes-IsNode : (i : ℕ) → i < 2 → IsNode i 2 1 (nodes i)
nodes-IsNode zero lt = record {
  own = refl;
  root = λ e. refl;
  above = λ h. absurd (omega arith);
  narrow = omega arith;
  inside = λ h. omega arith;
  all = inl refl;
  child = only_child;
}
nodes-IsNode (suc zero) lt = record {
  own = refl;
  root = λ e. absurd (omega (arith, e));
  above = λ h. refl;
  narrow = omega arith;
  inside = λ h. absurd (omega arith);
  all = inr (omega arith);
  child = λ j h. absurd (omega arith);
}
nodes-IsNode (suc (suc i)) lt = absurd (omega arith)

abbrev members : ℕ → State
members i = record (idle i) {
  tree = nodes i;
  term = record { flag = true; up = false; replies = 0 };
}

abbrev at_first : ℕ → Bool
at_first zero = true
at_first (suc i) = false

abbrev pair : Flow
pair = record {
  rank = members;
  busy = at_first;
  up = λ _. none;
  down = λ _. none;
  work = [];
  receipts = λ _. 0;
}

pair-IsStart : IsStart 2 1 pair
pair-IsStart = record {
  node = nodes-IsNode;
  is_down = λ i lt. refl;
  none_heard = λ i lt. refl;
  owes_none = λ i lt. refl;
  no_report = λ i lt. refl;
  no_answer = λ i lt. refl;
  no_work = refl;
  no_receipt = λ i lt. refl;
}

-- The first rank gives all of its work away, the second ends it, and the receipt arrives.
abbrev given : (s : Flow) × Reach 2 1 pair s
unfolding ℕ_discrete workreceipt_check
given =
    let owing = record (members 0) { work_outstanding = 1 } in
    let gone : Reach 2 1 pair (record pair { rank = update members 0 owing; work = (0, 1) ∷ [] }) =
      later start (
        give 0 1 owing (omega arith) (omega arith) refl
          (record { term = refl; tree = refl; outstanding = refl })) in
    let there = later gone (receive 0 1 [] [] refl) in
    let ended = later (later there (finish 0)) (finish 1) in
    (_, later ended (receipt 0 (omega arith) (omega arith)))

-- The reduction after it is not the last. In the next one the second rank has reported.
abbrev reported : (s : Flow) × Reach 2 1 pair s
unfolding ℕ_discrete gather term_up term_down await check_for_term_allreduce send_down
    workreceipt_check
reported =
    let up = later given.1 (report 1 0 _ _ (omega arith) refl refl refl refl refl refl) in
    let heard =
      later up (collect 0 1 true (omega arith) (omega arith) refl (omega arith) refl refl) in
    let low = later heard (settle 0 _ _ (omega arith) refl refl refl refl refl refl) in
    let back = later low (answer 1 0 false _ _ (omega arith) refl refl refl refl refl refl) in
    (_, later back (report 1 0 _ _ (omega arith) refl refl refl refl refl refl))

Reach-terminate_example : Quiet 2 reported.0
unfolding ℕ_discrete gather term_up term_down await check_for_term_allreduce send_down
    workreceipt_check
Reach-terminate_example =
    Reach-terminate 0 (true ∷ []) none _ (omega arith) pair-IsStart reported.1 (omega arith) refl
      (one_more reported.0 1 true (omega arith) (omega arith) refl refl (none_left _)) (inl refl)
      refl
