-- ===== src/Tree.antt =====
-- The k-ary tree of ranks that the collective operations of libcircle/token.c run on:
-- CIRCLE_tree_init and CIRCLE_tree_free. Ranks are native numbers, since a communicator has no
-- negative ranks; MPI_PROC_NULL is `none`. The width `k` is not negative.
pub mod Node
pub mod Family
use libcircle.Prelude.{
  ℕ, zero, suc, ◌+◌, ◌-◌, ◌*◌, ◌/◌, Option, none, some, List, [], ◌∷◌, Bool, not, ◌&&◌, ltb, leb,
  ◌==◌, if◌then◌else◌, length, set, replicate,
}
use libcircle.C.{Run, ok, fault, aborted, ◌>>=◌, ◌>>◌, require, int_limit, Os}

-- `CIRCLE_tree_state_st`. The array holds as many entries as the tree is wide.
pub record Tree : Type 0 where
  pub rank : ℕ
  pub ranks : ℕ
  pub parent_rank : Option ℕ
  pub children : ℕ
  pub child_ranks : List (Option ℕ)

-- sizeof(int)
abbrev pub int_size : ℕ
int_size = 4

-- `(rank - 1) / k`, which traps at k = 0
pub parent : ℕ → ℕ → Run (Option ℕ)
parent rank k = if rank == 0 then ok none else if k == 0 then fault else ok (some ((rank - 1) / k))

-- `for(i = 0; i < t->children; i++) t->child_ranks[i] = left + i;`, with `n` rounds left.
pub fill : ℕ → ℕ → ℕ → List (Option ℕ) → Run (List (Option ℕ))
fill zero i left ranks = ok ranks
fill (suc n) i left ranks = do
  require (ltb i (length ranks))
  fill n (i + 1) left (set ranks i (some (left + i)))

-- The children from `left` on, for a rank that has at least one.
pub add_children : Tree → (left right : ℕ) → Run Tree
add_children t left right =
    let right' = if leb t.ranks right then t.ranks - 1 else right in
    let children = right' - left + 1 in
    do
      child_ranks ← fill children 0 left t.child_ranks
      ok (record t { children = children; child_ranks = child_ranks })

pub init : Os → (rank ranks k : ℕ) → Run Tree
init os rank ranks k = if ltb 0 k && is_refused then aborted else do
  parent_rank ← parent rank k
  require (ltb (rank * k + k) int_limit)
  require (ltb (rank * k + 1) int_limit)
  let t : Tree = record {
    rank = rank;
    ranks = ranks;
    parent_rank = parent_rank;
    children = 0;
    child_ranks = replicate k none;
  }
  let grown = add_children t (rank * k + 1) (rank * k + k)
  if ltb (rank * k + 1) ranks then grown else ok t
  where
    is_refused : Bool
    is_refused = not (os.grants (k * int_size))

-- The array is given back, and the pointer to it is NULL; the number of children stays.
pub free : Tree → Tree
free t = record t { child_ranks = [] }
