-- ===== src/Tree/Node.antt =====
-- Which ranks a node of the tree names, and that parents and children agree.
use native.Mathlib.Nat.{div-add-mod', mod-lt}
use libcircle.Prelude.{
  ℕ, zero, suc, ◌+◌, ◌-◌, ◌*◌, ◌/◌, ◌%◌, ◌≤◌, ◌<◌, ◌≡◌, ◌↔◌, ◌⊎◌, inl, inr, refl, sym, ◌∙◌, ap,
  Option, none, some, List, arith, ltb, leb, length, get_elem?, if◌then◌else◌, set, replicate,
  Bool-cases, true, length-set, length-replicate, get_elem?-set_self, get_elem?-set_ne, lt→ltb,
  pos→==zero, ltb→lt, ltb→le,
}
use libcircle.C.{ok, int_limit, Os}
use libcircle.Tree.{Tree, int_size, parent, fill, add_children, init}

-- What `fill` leaves: the ranks from `left` on in the entries from `i` to `i + n`, and the entries
-- before them as they were.
record Filled (n i left : ℕ) (old new : List (Option ℕ)) : Type 0 where
  written : (j : ℕ) → i ≤ j → j < i + n → get_elem? new j ≡ some (some (left + j))
  before : (j : ℕ) → j < i → get_elem? new j ≡ get_elem? old j

fill-Filled :
    (n i left : ℕ) (old : List (Option ℕ))
    → i + n ≤ length old
    → (new : List (Option ℕ)) × (fill n i left old ≡ ok new) × Filled n i left old new
unfolding fill
fill-Filled zero i left old h =
    (old, refl, record { written = λ j a b. absurd (omega arith); before = λ j a. refl })
fill-Filled (suc n) i left old h =
    let next = set old i (some (left + i)) in
    let (new, e, f) =
      fill-Filled n (i + 1) left next (omega (arith, length-set old i (some (left + i)))) in
    (
      new,
      rw (lt→ltb i (length old) (omega arith), e),
      record {
        written = λ j a b. elim (Bool-cases (ltb i j)) [
          | inl later ↦ f.written j (omega (arith, ltb→lt i j later)) (omega arith)
          | inr first ↦
              let same : j ≡ i = omega (arith, ltb→le i j first) in
              rw same (
                f.before i (omega arith) ∙ get_elem?-set_self old i (some (left + i)) (omega arith))
        ];
        before = λ j a.
            f.before j (omega arith) ∙ get_elem?-set_ne old i j (some (left + i)) (omega arith);
      },
    )

-- The node of a rank in the tree of width `k`.
pub record IsNode (rank ranks k : ℕ) (t : Tree) : Type 0 where
  pub own : t.rank ≡ rank
  pub root : rank ≡ 0 → t.parent_rank ≡ none
  pub above : 0 < rank → t.parent_rank ≡ some ((rank - 1) / k)
  pub narrow : t.children ≤ k
  pub inside : 0 < t.children → rank * k + 1 + t.children ≤ ranks
  pub all : (t.children ≡ k) ⊎ (ranks ≤ rank * k + 1 + t.children)
  pub child : (i : ℕ) → i < t.children → get_elem? t.child_ranks i ≡ some (some (rank * k + 1 + i))

record HasParent (rank k : ℕ) (o : Option ℕ) : Type 0 where
  root : rank ≡ 0 → o ≡ none
  above : 0 < rank → o ≡ some ((rank - 1) / k)

parent-HasParent :
    (rank k : ℕ) → 0 < k → (o : Option ℕ) × (parent rank k ≡ ok o) × HasParent rank k o
unfolding parent
parent-HasParent zero k h =
    (none, refl, record { root = λ e. refl; above = λ a. absurd (omega arith) })
parent-HasParent (suc r) k h = (
  some ((suc r - 1) / k),
  rw (pos→==zero (suc r) (omega arith), pos→==zero k h),
  record { root = λ e. absurd (omega arith); above = λ a. refl },
)

module _ (rank ranks k : ℕ) (o : Option ℕ) (p : HasParent rank k o) where
  -- The node before its children are added.
  abbrev leaf : Tree
  leaf = record {
    rank = rank;
    ranks = ranks;
    parent_rank = o;
    children = 0;
    child_ranks = replicate k none;
  }

  leaf-IsNode : ranks ≤ rank * k + 1 → IsNode rank ranks k leaf
  leaf-IsNode few = record {
    own = refl;
    root = p.root;
    above = p.above;
    narrow = omega arith;
    inside = λ h. absurd (omega arith);
    all = inr (omega arith);
    child = λ i h. absurd (omega arith);
  }

  -- The number of children that the code computes from the two ends of their range.
  span : ℕ
  span = (if leb ranks (rank * k + k) then ranks - 1 else rank * k + k) - (rank * k + 1) + 1

  span_bounds :
      0 < k
      → rank * k + 1 < ranks
      → (span ≤ k) × (rank * k + 1 + span ≤ ranks) × ((span ≡ k) ⊎ (ranks ≤ rank * k + 1 + span))
  unfolding span
  span_bounds h lt = ground arith

  add_children-IsNode :
      0 < k
      → rank * k + 1 < ranks
      → (t : Tree) × (add_children leaf (rank * k + 1) (rank * k + k) ≡ ok t)
        × IsNode rank ranks k t
  unfolding add_children span
  add_children-IsNode h lt =
      let (narrow, inside, all) = span_bounds h lt in
      let (new, e, f) =
        fill-Filled span 0 (rank * k + 1) (replicate k none)
          (let nobody : Option ℕ = none in omega (arith, length-replicate k nobody)) in
      (
        record leaf { children = span; child_ranks = new },
        rw e,
        record {
          own = refl;
          root = p.root;
          above = p.above;
          narrow = narrow;
          inside = λ _. inside;
          all = all;
          child = λ i lt'. f.written i (omega arith) (omega arith);
        },
      )

-- On a communicator whose tree fits an int, the node is computed without a fault: its parent is
-- (rank - 1) / k, and its children are the at most k ranks from rank * k + 1 on that exist.
pub init-IsNode :
    (os : Os) (rank ranks k : ℕ)
    → 0 < k
    → rank * k + k < int_limit
    → os.grants (k * int_size) ≡ true
    → (t : Tree) × (init os rank ranks k ≡ ok t) × IsNode rank ranks k t
unfolding init
init-IsNode os rank ranks k h small granted =
    let (o, e, p) = parent-HasParent rank k h in
    rw
      (
        granted,
        lt→ltb 0 k h,
        e,
        lt→ltb (rank * k + k) int_limit small,
        lt→ltb (rank * k + 1) int_limit (omega arith),
      )
      (elim (Bool-cases (ltb (rank * k + 1) ranks)) [
        | inl some_ ↦ rw some_ (add_children-IsNode rank ranks k o p h (ltb→lt _ _ some_))
        | inr none_ ↦ rw none_ (_, refl, leaf-IsNode rank ranks k o p (ltb→le _ _ none_))
      ])

pub div_of_child : (p k i : ℕ) → i < k → (p * k + 1 + i - 1) / k ≡ p
div_of_child p k i h = grind arith

module _ {ranks k p c : ℕ} {t u : Tree} (n : IsNode p ranks k t) (m : IsNode c ranks k u) where
  -- A rank is a child of another exactly where that is its parent.
  pub child-parent :
      0 < k
      → c < ranks
      → ((i : ℕ) × (i < t.children) × (get_elem? t.child_ranks i ≡ some (some c)))
        ↔ (u.parent_rank ≡ some p)
  child-parent h lt = (down, up)
    where
      down :
          (i : ℕ) × (i < t.children) × (get_elem? t.child_ranks i ≡ some (some c))
          → u.parent_rank ≡ some p
      down (i, inside, e) =
          let e' : c ≡ p * k + 1 + i = cc (n.child i inside, e) in
          m.above (omega (arith, e'))
          ∙ ap some (rw e' (div_of_child p k i (omega (arith, n.narrow))))

      not_root : u.parent_rank ≡ some p → 0 < c
      not_root e = elim (Bool-cases (ltb 0 c)) [
        | inl more ↦ ltb→lt 0 c more
        | inr zero_ ↦ cc (m.root (omega (arith, ltb→le 0 c zero_)), e)
      ]

      up :
          u.parent_rank ≡ some p
          → (i : ℕ) × (i < t.children) × (get_elem? t.child_ranks i ≡ some (some c))
      up e =
          let quotient : (c - 1) / k ≡ p = cc (m.above (not_root e), e) in
          let i = (c - 1) % k in
          let whole : p * k + i ≡ c - 1 = rw quotient at (div-add-mod' (c - 1) k) in
          let place : c ≡ p * k + 1 + i = omega (arith, not_root e, whole) in
          let inside : i < t.children = elim n.all [
            | inl full ↦ omega (arith, full, mod-lt (c - 1) h)
            | inr few ↦ omega (arith, few, place)
          ] in
          (i, inside, n.child i inside ∙ ap (λ a. some (some a)) (sym place))
