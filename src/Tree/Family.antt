-- ===== src/Tree/Family.antt =====
-- Parents and children agree across the ranks of a communicator.
use libcircle.Prelude.{ℕ, ◌+◌, ◌*◌, ◌≤◌, ◌<◌, ◌≡◌, ◌↔◌, true, some, arith, get_elem?}
use libcircle.C.{ok, int_limit, Os}
use libcircle.Tree.{Tree, int_size, init}
use libcircle.Tree.Node.{init-IsNode, child-parent}

fits_of_rank : (r ranks k : ℕ) → r < ranks → ranks * k + k < int_limit → r * k + k < int_limit
fits_of_rank r ranks k h fits = omega (arith, more)
  where
    more : r * k ≤ ranks * k
    more = grind arith

-- For any two ranks of a communicator whose tree has a positive width and fits an int, where the
-- memory for the children is granted, both nodes are computed without a
-- fault, and the second rank is listed among the children of the first exactly where the first is
-- the parent of the second.
pub init-child-parent :
    (os : Os) (ranks k p c : ℕ)
    → 0 < k
    → ranks * k + k < int_limit
    → os.grants (k * int_size) ≡ true
    → p < ranks
    → c < ranks
    → (t : Tree) × (u : Tree) × (init os p ranks k ≡ ok t)
      × (init os c ranks k ≡ ok u)
      × (((i : ℕ) × (i < t.children) × (get_elem? t.child_ranks i ≡ some (some c)))
          ↔ (u.parent_rank ≡ some p))
init-child-parent os ranks k p c h fits granted hp hc =
    let (t, e, n) = init-IsNode os p ranks k h (fits_of_rank p ranks k hp fits) granted in
    let (u, e', m) = init-IsNode os c ranks k h (fits_of_rank c ranks k hc fits) granted in
    (t, u, e, e', child-parent n m h hc)
