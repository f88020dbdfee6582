-- ===== src/Collective/Flow/Seat.antt =====
-- The ranks' places in the tree, and the fields that the reduction reads.
use mathlib.Core.Path.{subst, transport}
use native.Mathlib.Decide.{ℕ_discrete}
use native.Mathlib.Nat
use native.Mathlib.Nat.{div-le_self}
use libcircle.Prelude.{
  ℕ, ◌+◌, ◌-◌, ◌*◌, ◌/◌, ◌≤◌, ◌<◌, ◌≡◌, sym, ◌∙◌, ap, Bool, some, arith, update, update_self,
  update_other,
}
use libcircle.State.{State}
use libcircle.Tree.{Tree}
use libcircle.Tree.Node.{IsNode, child-parent, div_of_child}
use libcircle.Collective.Flow.Calls.{Does}
use libcircle.Collective.Flow.Turn.{IsFamily}

-- A rank's place in the tree, and its fields.
pub record IsSeat (n k i : ℕ) (st : State) (kids : ℕ) (up : Bool) (replies : ℕ) (flag : Bool)
    (owed : ℕ) : Type 0 where
  pub node : IsNode i n k st.tree
  pub children : st.tree.children ≡ kids
  pub is_up : st.term.up ≡ up
  pub heard : st.term.replies ≡ replies
  pub flag_is : st.term.flag ≡ flag
  pub owes : st.work_outstanding ≡ owed

pub Seat-Does :
    {n k i : ℕ} {st st' : State} {kids : ℕ} {up up' : Bool} {replies replies' : ℕ}
    {flag flag' : Bool} {owed owed' : ℕ}
    → IsSeat n k i st kids up replies flag owed
    → Does st st' up' replies' flag' owed'
    → IsSeat n k i st' kids up' replies' flag' owed'
Seat-Does s d = record {
  node = rw d.tree s.node;
  children = rw d.tree s.children;
  is_up = d.is_up;
  heard = d.heard;
  flag_is = d.flag_is;
  owes = d.owes;
}

abbrev pub first_child : ℕ → ℕ → ℕ
first_child k p = p * k + 1

-- The children of the nodes make a tree.
pub nodes-IsFamily :
    (n k : ℕ) (kids : ℕ → ℕ) (tree : ℕ → Tree)
    → 0 < k
    → ((i : ℕ) → i < n → IsNode i n k (tree i))
    → ((i : ℕ) → i < n → (tree i).children ≡ kids i)
    → IsFamily n (first_child k) kids
nodes-IsFamily n k kids tree wide node same = record {
  inside = λ p j lt h.
      let e = same p lt in
      let c = (node p lt).inside (omega (arith, h, e)) in (below p j, omega (arith, c, h, e));
  apart = λ p q j i lt lt' h h' e.
      sym (div_of_child p k j (omega (arith, h, same p lt, (node p lt).narrow)))
      ∙ ap (λ a. (a - 1) / k) e
      ∙ div_of_child q k i (omega (arith, h', same q lt', (node q lt').narrow));
  above = λ c h lt.
      let p = (c - 1) / k in
      let less : p < c = omega (arith, div-le_self (c - 1) k, h) in
      let (j, inside, e) =
        (child-parent (node p (omega arith)) (node c lt) wide lt).1 ((node c lt).above h) in
      (
        p,
        j,
        less,
        omega (arith, inside, same p (omega arith)),
        cc ((node p (omega arith)).child j inside, e),
      );
}
  where
    below : (p j : ℕ) → p < p * k + 1 + j
    below p j = let e : p * 1 ≤ p * k = Nat.mul-le-mul_left p wide in omega (arith, e)

-- All ranks.
abbrev pub Seats :
    (n k : ℕ)
    → (ℕ → State)
    → (kids : ℕ → ℕ) → (up : ℕ → Bool) → (replies : ℕ → ℕ) → (flag : ℕ → Bool) → (owed : ℕ → ℕ)
    → Type 0
Seats n k rank kids up replies flag owed =
    (i : ℕ) → i < n → IsSeat n k i (rank i) (kids i) (up i) (replies i) (flag i) (owed i)

pub Seats-IsFamily :
    {n k : ℕ} {rank : ℕ → State} {kids replies owed : ℕ → ℕ} {up flag : ℕ → Bool}
    → 0 < k
    → Seats n k rank kids up replies flag owed
    → IsFamily n (first_child k) kids
Seats-IsFamily {n} {k} {rank} {kids} wide seats =
    nodes-IsFamily n k kids (λ i. (rank i).tree) wide (λ i lt. (seats i lt).node)
      (λ i lt. (seats i lt).children)

-- A rank calls.
Seats-update :
    {n k : ℕ} {rank : ℕ → State} {kids replies owed : ℕ → ℕ} {up flag : ℕ → Bool} (i : ℕ)
    {st : State} {u f : Bool} {a o : ℕ}
    → Seats n k rank kids up replies flag owed
    → i < n
    → Does (rank i) st u a f o
    → Seats n k
        (update rank i st)
        kids
        (update up i u)
        (update replies i a)
        (update flag i f)
        (update owed i o)
Seats-update {n} {k} {rank} {kids} {replies} {owed} {up} {flag} i {st} {u} {f} {a} {o} seats lt d j
      lt' =
    elim (ℕ_discrete i j) [
      | yes e ↦
          subst
            (λ z.
              IsSeat n k z (update rank i st z) (kids z) (update up i u z) (update replies i a z)
                (update flag i f z) (update owed i o z))
            e
            (rw
              (
                update_self rank i st,
                update_self up i u,
                update_self replies i a,
                update_self flag i f,
                update_self owed i o,
              )
              (Seat-Does (seats i lt) d))
      | no e ↦
          rw
            (
              update_other rank i j st e,
              update_other up i j u e,
              update_other replies i j a e,
              update_other flag i j f e,
              update_other owed i j o e,
            )
            (seats j lt')
    ]

-- The same for the fields under other names.
pub Seats-step :
    {n k : ℕ} {rank : ℕ → State} {kids replies owed replies' owed' : ℕ → ℕ}
    {up flag up' flag' : ℕ → Bool} (i : ℕ) {st : State} {u f : Bool} {a o : ℕ}
    → Seats n k rank kids up replies flag owed
    → i < n
    → Does (rank i) st u a f o
    → update up i u ≡ up'
    → update replies i a ≡ replies'
    → update flag i f ≡ flag'
    → update owed i o ≡ owed'
    → Seats n k (update rank i st) kids up' replies' flag' owed'
Seats-step {n} {k} {rank} {kids} i {st} seats lt d eu ea ef eo =
    transport (λ t. Seats n k (update rank i st) kids (eu t) (ea t) (ef t) (eo t))
      (Seats-update i seats lt d)

-- A rank whose parent is `p` is one of its children.
pub child_of :
    {n k : ℕ} {rank : ℕ → State} {kids replies owed : ℕ → ℕ} {up flag : ℕ → Bool} (p c : ℕ)
    → 0 < k
    → Seats n k rank kids up replies flag owed
    → p < n
    → c < n
    → (rank c).tree.parent_rank ≡ some p
    → (j : ℕ) × (j < kids p) × (c ≡ first_child k p + j)
child_of p c wide seats lt lt' parent =
    let s = seats p lt in
    let (j, inside, e) = (child-parent s.node (seats c lt').node wide lt').1 parent in
    (j, omega (arith, inside, s.children), cc (s.node.child j inside, e))
