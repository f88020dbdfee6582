-- ===== src/Collective/Net.antt =====
-- The ranks of a communicator as the tree that their nodes describe.
use libcircle.Prelude.{ℕ, suc, ◌+◌, ◌<◌, ◌≡◌, Option, some, get_elem?}
use libcircle.State.{State}

-- A rank with the ranks below it; `left` is the rank of the first child.
mutual
  pub data Net : Type 0 where
    node : (st : State) → (left : ℕ) → Nets → Net

  pub data Nets : Type 0 where
    leaf : Nets
    also : Net → Nets → Nets

abbrev pub rank_of : Net → ℕ
rank_of (node st left kids) = st.rank

unfoldable pub count : Nets → ℕ
count leaf = 0
count (also net nets) = suc (count nets)

-- How many ranks there are.
unfoldable mutual
  pub size : Net → ℕ
  size (node st left kids) = suc (size_all kids)

  pub size_all : Nets → ℕ
  size_all leaf = 0
  size_all (also net nets) = size net + size_all nets

-- The nodes agree on who is whose parent. `parent` is the parent of the first.
unfoldable mutual
  pub Linked : Option ℕ → Net → Type 0
  Linked parent (node st left kids) =
      (st.tree.parent_rank ≡ parent)
      × (st.tree.children ≡ count kids)
      × ((j : ℕ) → j < st.tree.children → get_elem? st.tree.child_ranks j ≡ some (some (left + j)))
      × AllLinked st.rank left kids

  pub AllLinked : (above first : ℕ) → Nets → Type 0
  AllLinked above first leaf = Unit
  AllLinked above first (also net nets) =
      (rank_of net ≡ first) × Linked (some above) net × AllLinked above (first + 1) nets
