-- ===== src/Examples/Trees.antt =====
-- The barrier and the reduction for termination at concrete inputs.
use libcircle.Prelude.{
  ◌≡◌, ◌<◌, ◌+◌, ◌++◌, refl, ℕ, zero, suc, true, false, Option, some, none, [], ◌∷◌, arith,
  get_elem?, if◌then◌else◌, ◌⊎◌, inl,
}
use libcircle.C.{ok}
use libcircle.Sends.{Payload}
use libcircle.State.{Tag, Color, State}
use libcircle.Collective.Barrier.{IsBarrier, Waits, Passes, barrier_test-IsBarrier}
use libcircle.Collective.{barrier_test, int_of, check_for_term_allreduce}
use libcircle.Collective.Down.{messages}
use libcircle.Collective.Reduce.{
  IsFresh, conjunction, gathered, told, report, allreduce-root, allreduce-inner,
}
use libcircle.Request.{workreceipt_check}
use libcircle.Request.Settle.{settled, receipts-delay}
use libcircle.Examples.Sample.{idle}

-- A rank with the parent `above` and the child 2.
abbrev node : (above : Option ℕ) → State
node above = record (idle 1) {
  tree = record {
    rank = 1;
    ranks = 3;
    parent_rank = above;
    children = 1;
    child_ranks = some 2 ∷ [];
  };
  term = record { flag = true; up = false; replies = 0 };
}

one_child : (j : ℕ) → j < 1 → get_elem? (some 2 ∷ []) j ≡ some (some (2 + j))
one_child zero lt = refl
one_child (suc j) lt = absurd (omega arith)

node-IsFresh : (above : Option ℕ) → IsFresh (node above) 2
node-IsFresh above = record { down = refl; none_yet = refl; settled = refl; child = one_child }

allreduce-root_example :
    check_for_term_allreduce (node none) (true ∷ []) none
    ≡ ok (
      record (node none) {
        posted = messages Tag.term (Payload.ints (int_of (conjunction true (true ∷ [])) ∷ [])) 1 2;
        term = record { flag = true; up = false; replies = 0 };
      },
      if conjunction true (true ∷ []) then Color.terminate else Color.white,
    )
allreduce-root_example = allreduce-root (node none) 2 (node-IsFresh none) (true ∷ []) refl none refl

abbrev inner_waiting : State
inner_waiting =
    told (gathered (node (some 0)) (false ∷ []))
      (report (gathered (node (some 0)) (false ∷ [])) (some 0))

allreduce-inner_example :
    (check_for_term_allreduce (node (some 0)) (false ∷ []) none ≡ ok (inner_waiting, Color.white))
    × (check_for_term_allreduce inner_waiting [] (some false)
        ≡ ok (
          record (node (some 0)) {
            posted =
                inner_waiting.posted ++ messages Tag.term (Payload.ints (int_of false ∷ [])) 1 2;
            term = record { flag = true; up = false; replies = 0 };
          },
          Color.white,
        ))
allreduce-inner_example =
    allreduce-inner (node (some 0)) 2 (node-IsFresh (some 0)) (false ∷ []) refl 0 false refl

-- A node that has started the barrier, and has not heard from its child.
abbrev started_node : State
started_node = record (node (some 0)) {
  barrier = record { started = true; up = false; replies = 0 };
}

started_node-IsBarrier : IsBarrier started_node 2
started_node-IsBarrier = record { counted = omega arith; told_after = inl refl; child = one_child }

barrier_test-IsBarrier_example :
    (st' : State) × IsBarrier st' 2
    × (((barrier_test started_node true true ≡ ok (st', false)) × Waits started_node true true)
        ⊎ ((barrier_test started_node true true ≡ ok (st', true))
            × (started_node.barrier.started ≡ true)
            × Passes started_node 2 true true st'))
barrier_test-IsBarrier_example =
    barrier_test-IsBarrier started_node 2 true true started_node-IsBarrier

-- The root with one transfer under way.
abbrev busy_root : State
busy_root = record (node none) { work_outstanding = 1 }

busy_root-IsFresh : IsFresh (settled busy_root) 2
busy_root-IsFresh = record { down = refl; none_yet = refl; settled = refl; child = one_child }

receipts-delay_example :
    (st' : State) × (check_for_term_allreduce (workreceipt_check busy_root 1) (true ∷ []) none
      ≡ ok (st', Color.white))
    × IsFresh st' 2
receipts-delay_example =
    receipts-delay busy_root 2 1 (true ∷ []) none (omega arith) (omega arith) busy_root-IsFresh refl
      refl
