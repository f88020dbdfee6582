-- ===== src/Abort/Alarm/Reached.antt =====
-- An abort reaches all ranks of the tree.
use mathlib.Core.Path.{subst}
use native.Mathlib.Decide.{ℕ_discrete}
use native.Mathlib.Nat.{div-le_self}
use libcircle.Prelude.{
  ℕ, zero, suc, ◌+◌, ◌-◌, ◌*◌, ◌/◌, ◌<◌, ◌≡◌, refl, sym, ◌∙◌, ap, inl, inr, Bool, true, false,
  Option, some, arith, update, update_self, update_other, update-each,
}
use libcircle.C.{Run, ok}
use libcircle.State.{State}
use libcircle.Tree.Node.{IsNode, child-parent}
use libcircle.Abort.{bcast_abort, abort_check}
use libcircle.Abort.Alarm.Told.{IsNeighbour, IsTold, check-Spreads}
use libcircle.Abort.Alarm.{
  Alarm, Leaves, Step, raise, other, check, obey, Reach, start, later, IsStart, IsStill,
}

-- A rank in its place.
record IsMember (n k i : ℕ) (st : State) : Type 0 where
  node : IsNode i n k st.tree
  told : IsTold (i * k + 1) st

-- A rank that has taken a request is in the abort state.
record Spreading (n k : ℕ) (r : Alarm) : Type 0 where
  member : (i : ℕ) → i < n → IsMember n k i (r.rank i)
  took : (i j : ℕ) → i < n → r.taken i j ≡ true → (r.rank i).abort.active ≡ true

raise-IsMember : {n k i : ℕ} {st : State} → IsMember n k i st → IsMember n k i (bcast_abort st)
unfolding bcast_abort
raise-IsMember m = record {
  node = m.node;
  told = record {
    neighbours = record { room = m.told.neighbours.room; child = m.told.neighbours.child };
    flagged = λ _. refl;
    asked = m.told.asked;
  };
}

raise-active : (st : State) → (bcast_abort st).abort.active ≡ st.abort.active
unfolding bcast_abort
raise-active st = refl

leave-IsMember :
    {n k i : ℕ} {st st' : State} → IsMember n k i st → Leaves st st' → IsMember n k i st'
leave-IsMember {k} {i} m l = record {
  node = rw l.tree m.node;
  told = record {
    neighbours = record {
      room = rw (l.tree, l.abort) m.told.neighbours.room;
      child = rw l.tree m.told.neighbours.child;
    };
    flagged = λ a. l.flag ∙ m.told.flagged (sym (ap (λ x. x.active) l.abort) ∙ a);
    asked = λ a j h. l.older _ (
        m.told.asked (sym (ap (λ x. x.active) l.abort) ∙ a) j
          (subst (λ t. IsNeighbour t (i * k + 1) j) l.tree h));
  };
}

-- What a check leaves.
record Checked (n k i : ℕ) (st : State) (request : Option ℕ) (st' : State) : Type 0 where
  member : IsMember n k i st'
  still : st.abort.active ≡ true → st'.abort.active ≡ true
  obeys : (j : ℕ) → request ≡ some j → st'.abort.active ≡ true

ok-inj : {a b : State} → Run.ok a ≡ Run.ok b → a ≡ b
ok-inj e = cc e

check-Checked :
    {n k i : ℕ} {st st' : State} {request : Option ℕ} (completed : Bool)
    → IsMember n k i st
    → abort_check st false request completed ≡ ok st'
    → Checked n k i st request st'
check-Checked {n} {k} {i} {st} {st'} {request} completed m e =
    let (x, run, (s, own, obeys)) = check-Spreads (i * k + 1) st request completed m.told in
    subst (Checked n k i st request) (ok-inj (sym run ∙ e)) (record {
      member = record { node = rw s.tree m.node; told = s.told };
      still = s.still;
      obeys = obeys;
    })

-- Rank `i` has a new state, and takes no request.
moved-Spreading :
    {n k : ℕ} {r : Alarm} (i : ℕ) (st : State)
    → Spreading n k r
    → IsMember n k i st
    → ((r.rank i).abort.active ≡ true → st.abort.active ≡ true)
    → Spreading n k (record r { rank = update r.rank i st })
moved-Spreading {n} {k} {r} i st v m still = record {
  member = λ j lt. update-each (IsMember n k) r.rank i st j (λ _. m) (λ _. v.member j lt);
  took = λ j q lt t.
      update-each (λ _ x. x.abort.active ≡ true) r.rank i st j
        (λ e. still (subst (λ z. (r.rank z).abort.active ≡ true) (sym e) (v.took j q lt t)))
        (λ _. v.took j q lt t);
}

Step-Spreading : {n k : ℕ} {r s : Alarm} → Step n r s → Spreading n k r → Spreading n k s
Step-Spreading {r} (raise i lt) v =
    moved-Spreading i (bcast_abort (r.rank i)) v (raise-IsMember (v.member i lt))
      (λ a. raise-active (r.rank i) ∙ a)
Step-Spreading (other i st lt l) v =
    moved-Spreading i st v (leave-IsMember (v.member i lt) l) (λ a. ap (λ x. x.active) l.abort ∙ a)
Step-Spreading (check i completed st lt e) v =
    let c = check-Checked completed (v.member i lt) e in moved-Spreading i st v c.member c.still
Step-Spreading {r} (obey i j completed st lt lt' asked new e) v =
    let c = check-Checked completed (v.member i lt) e in
    let moved = moved-Spreading i st v c.member c.still in
    record {
      member = moved.member;
      took = λ q p lt'' t. elim (ℕ_discrete i q) [
        | yes same ↦
            subst (λ z. (update r.rank i st z).abort.active ≡ true) same
              (rw (update_self r.rank i st) (c.obeys j refl))
        | no differ ↦
            moved.took q p lt''
              (rw (update_other r.taken i q (update (r.taken i) j true) differ) at t)
      ];
    }

Reach-Spreading : {n k : ℕ} {r s : Alarm} → IsStart n k r → Reach n r s → Spreading n k s
Reach-Spreading h start = record {
  member = λ i lt. record {
    node = h.node i lt;
    told = record {
      neighbours = h.neighbours i lt;
      flagged = λ a. cc (a, h.quiet i lt);
      asked = λ a. cc (a, h.quiet i lt);
    };
  };
  took = λ i j lt t. cc (t, h.fresh i j lt);
}
Reach-Spreading h (later p st) = Step-Spreading st (Reach-Spreading h p)

module _ {n k : ℕ} {s : Alarm} (wide : 0 < k) (v : Spreading n k s) (still : IsStill n s) where
  abbrev HasStarted : ℕ → Type 0
  HasStarted i = (s.rank i).abort.active ≡ true

  -- From a rank to its neighbours.
  across :
      (i j : ℕ)
      → i < n
      → j < n
      → IsNeighbour (s.rank i).tree (i * k + 1) j
      → HasStarted i
      → HasStarted j
  across i j lt lt' h a =
      v.took j i lt' (still.arrived j i lt' lt ((v.member i lt).told.asked a j h))

  parent_of : (c : ℕ) → suc c < n → (s.rank (suc c)).tree.parent_rank ≡ some (c / k)
  parent_of c lt =
      let e : suc c - 1 ≡ c = omega arith in
      rw e at ((v.member (suc c) lt).node.above (omega arith))

  up : (m c : ℕ) → c < m → c < n → HasStarted c → HasStarted 0
  up zero c few lt a = absurd (omega arith)
  up (suc m) zero few lt a = a
  up (suc m) (suc c) few lt a =
      let less = div-le_self c k in
      up m (c / k) (omega (arith, less)) (omega (arith, less))
        (across (suc c) (c / k) lt (omega (arith, less)) (inl (parent_of c lt)) a)

  down : (m c : ℕ) → c < m → c < n → HasStarted 0 → HasStarted c
  down zero c few lt a = absurd (omega arith)
  down (suc m) zero few lt a = a
  down (suc m) (suc c) few lt a =
      let less = div-le_self c k in
      let p = (v.member (c / k) (omega (arith, less))).node in
      let q = (v.member (suc c) lt).node in
      let (i, inside, e) = (child-parent p q wide lt).1 (parent_of c lt) in
      let place : suc c ≡ c / k * k + 1 + i = cc (p.child i inside, e) in
      across (c / k) (suc c) (omega (arith, less)) lt (inr (i, inside, place))
        (down m (c / k) (omega (arith, less)) (omega (arith, less)) a)

-- Whatever ranks of the tree do, in whatever order: once no request to abort is under way, and each
-- rank whose flag is set has called the check since: if one rank's flag is
-- set, then every rank's flag is, and all ranks are in the abort state. At the start all ranks have
-- their places in a tree of positive width, with room for their requests, and none is in the abort
-- state, though flags may be set. Users set flags at any time, and no rank is in the cleanup phase.
pub Reach-reached :
    {n k : ℕ} {r s : Alarm} (i : ℕ)
    → 0 < k
    → IsStart n k r
    → Reach n r s
    → IsStill n s
    → i < n
    → (s.rank i).abort_flag ≡ true
    → (j : ℕ) → j < n
    → ((s.rank j).abort_flag ≡ true) × ((s.rank j).abort.active ≡ true)
Reach-reached {n} i wide h p still lt f j lt' =
    let v = Reach-Spreading h p in
    let a = down wide v still n j lt' lt' (up wide v still n i lt lt (still.checked i lt f)) in
    ((v.member j lt').told.flagged a, a)
