-- ===== src/Abort/Alarm/Told.antt =====
-- A rank of the tree that calls CIRCLE_abort_check: once it is in the abort state, it has asked all of
-- its neighbours.
use mathlib.Core.List.{Memᴰ}
use mathlib.Core.List.Memᴰ
use mathlib.Core.Path.{subst}
use libcircle.Prelude.{
  ℕ, zero, suc, ◌+◌, ◌<◌, ◌≡◌, ◌⊎◌, inl, inr, refl, ◌∙◌, Bool, true, false, ◌&&◌, Option, none,
  some, arith, if◌then◌else◌, Bool-cases,
}
use libcircle.C.{ok}
use libcircle.Sends.{Payload}
use libcircle.State.{Tag, Post, State, post}
use libcircle.Tree.{Tree}
use libcircle.Collective.Down.{messages}
use libcircle.Abort.Spread.{HasNeighbours, alarms, alarmed, spread_abort-alarmed}
use libcircle.Abort.{abort_start, abort_check, abort_answer, abort_drain}

-- A request to abort, and those that a rank has posted.
abbrev pub request_to : ℕ → Post
request_to j = record { dest = j; tag = Tag.abort_request; payload = Payload.empty }

abbrev pub HasAsked : State → ℕ → Type 0
HasAsked st j = Memᴰ (request_to j) st.posted

-- The parent of a node, and its children, which are the ranks from `left` on.
abbrev pub IsNeighbour : Tree → (left j : ℕ) → Type 0
IsNeighbour t left j = (t.parent_rank ≡ some j) ⊎ ((c : ℕ) × (c < t.children) × (j ≡ left + c))

-- A rank in the abort state has its flag set, and has asked all of its neighbours.
pub record IsTold (left : ℕ) (st : State) : Type 0 where
  pub neighbours : HasNeighbours st left
  pub flagged : st.abort.active ≡ true → st.abort_flag ≡ true
  pub asked : st.abort.active ≡ true → (j : ℕ) → IsNeighbour st.tree left j → HasAsked st j

-- What a call leaves.
pub record Spreads (left : ℕ) (st st' : State) : Type 0 where
  pub told : IsTold left st'
  pub tree : st'.tree ≡ st.tree
  pub older : (p : Post) → Memᴰ p st.posted → Memᴰ p st'.posted
  pub still : st.abort.active ≡ true → st'.abort.active ≡ true

messages-Mem :
    (n left c : ℕ)
    → c < n
    → Memᴰ (request_to (left + c)) (messages Tag.abort_request Payload.empty n left)
unfolding messages
messages-Mem zero left c lt = absurd (omega arith)
messages-Mem (suc n) left zero lt = Memᴰ.head (let e : left + 0 ≡ left = omega arith in rw e refl)
messages-Mem (suc n) left (suc c) lt =
    let e : left + 1 + c ≡ left + suc c = omega arith in
    Memᴰ.tail (
      subst (λ j. Memᴰ (request_to j) (messages Tag.abort_request Payload.empty n (left + 1))) e
        (messages-Mem n (left + 1) c (omega arith)))

alarms-Mem :
    (parent : Option ℕ) (children left j : ℕ)
    → (parent ≡ some j) ⊎ ((c : ℕ) × (c < children) × (j ≡ left + c))
    → Memᴰ (request_to j) (alarms parent children left)
alarms-Mem none children left j (inl e) = cc e
alarms-Mem none children left j (inr (c, lt, e)) = rw e (messages-Mem children left c lt)
alarms-Mem (some p) children left j (inl e) = let e' : p ≡ j = cc e in Memᴰ.head (rw e' refl)
alarms-Mem (some p) children left j (inr (c, lt, e)) =
    Memᴰ.tail (rw e (messages-Mem children left c lt))

-- The rank enters the abort state, or is in it.
start-Spreads :
    (left : ℕ) (st : State)
    → IsTold left st
    → (st' : State) × (abort_start st false ≡ ok st')
      × Spreads left st st'
      × (st'.abort.active ≡ true)
unfolding abort_start
start-Spreads left st t = elim (Bool-cases st.abort.active) [
  | inl a ↦ (
    record st { abort_flag = true },
    rw a refl,
    record {
      told = record {
        neighbours = record { room = t.neighbours.room; child = t.neighbours.child };
        flagged = λ _. refl;
        asked = t.asked;
      };
      tree = refl;
      older = λ p m. m;
      still = λ e. e;
    },
    a,
  )
  | inr a ↦
      let entered = record st { abort_flag = true; abort = record (st.abort) { active = true } } in
      (
        alarmed entered st.tree.parent_rank left,
        rw a (
            spread_abort-alarmed entered left st.tree.parent_rank refl t.neighbours.room
              t.neighbours.child),
        record {
          told = record {
            neighbours = record { room = t.neighbours.room; child = t.neighbours.child };
            flagged = λ _. refl;
            asked = λ _ j n.
                Memᴰ.append_right st.posted
                  (alarms-Mem st.tree.parent_rank st.tree.children left j n);
          };
          tree = refl;
          older = λ p m. Memᴰ.append_left (alarms st.tree.parent_rank st.tree.children left) m;
          still = λ _. refl;
        },
        refl,
      )
]

pub Spreads-same : {left : ℕ} {st : State} → IsTold left st → Spreads left st st
Spreads-same t = record { told = t; tree = refl; older = λ p m. m; still = λ e. e }

pub Spreads-trans :
    {left : ℕ} {a b c : State} → Spreads left a b → Spreads left b c → Spreads left a c
Spreads-trans s s' = record {
  told = s'.told;
  tree = s'.tree ∙ s.tree;
  older = λ p m. s'.older p (s.older p m);
  still = λ e. s'.still (s.still e);
}

drain-Spreads :
    (left : ℕ) (st : State) (completed : Bool)
    → IsTold left st
    → Spreads left st (abort_drain st completed)
      × (st.abort.active ≡ true → (abort_drain st completed).abort.active ≡ true)
unfolding abort_drain
drain-Spreads left st completed t = elim (Bool-cases (st.abort.outstanding && completed)) [
  | inl e ↦ rw e (
    record {
      told = record {
        neighbours = record { room = t.neighbours.room; child = t.neighbours.child };
        flagged = t.flagged;
        asked = t.asked;
      };
      tree = refl;
      older = λ p m. m;
      still = λ a. a;
    },
    λ a. a,
  )
  | inr e ↦ rw e (Spreads-same t, λ a. a)
]

replied-Spreads :
    (left rank : ℕ) (st : State)
    → IsTold left st
    → Spreads left st (post st rank Tag.abort_reply Payload.empty)
replied-Spreads left rank st t = record {
  told = record {
    neighbours = record { room = t.neighbours.room; child = t.neighbours.child };
    flagged = t.flagged;
    asked = λ a j n. Memᴰ.append_left _ (t.asked a j n);
  };
  tree = refl;
  older = λ p m. Memᴰ.append_left _ m;
  still = λ a. a;
}

-- What a check does before its probe, and with what the probe finds.
abbrev Outcome : (left : ℕ) → State → (request : Option ℕ) → State → Type 0
Outcome left st request st' =
    Spreads left st st'
    × (st.abort_flag ≡ true → st'.abort.active ≡ true)
    × ((rank : ℕ) → request ≡ some rank → st'.abort.active ≡ true)

own-Spreads :
    (left : ℕ) (st : State) (f : Bool)
    → IsTold left st
    → (st' : State) × ((if f then abort_start st false else ok st) ≡ ok st')
      × Spreads left st st'
      × (f ≡ true → st'.abort.active ≡ true)
own-Spreads left st true t = let (st', e, s, a) = start-Spreads left st t in (st', e, s, λ _. a)
own-Spreads left st false t = (st, refl, Spreads-same t, λ f. cc f)

answer-Spreads :
    (left : ℕ) (st : State) (request : Option ℕ)
    → IsTold left st
    → (st' : State) × (abort_answer st false request ≡ ok st')
      × Spreads left st st'
      × ((rank : ℕ) → request ≡ some rank → st'.abort.active ≡ true)
unfolding abort_answer
answer-Spreads left st none t = (st, refl, Spreads-same t, λ rank e. cc e)
answer-Spreads left st (some rank) t =
    let s = replied-Spreads left rank st t in
    let (st', e, s', a) = start-Spreads left (post st rank Tag.abort_reply Payload.empty) s.told in
    (st', e, Spreads-trans s s', λ _ _. a)

-- A check returns, whatever the probe finds.
pub check-Spreads :
    (left : ℕ) (st : State) (request : Option ℕ) (completed : Bool)
    → IsTold left st
    → (st' : State) × (abort_check st false request completed ≡ ok st')
      × Outcome left st request st'
unfolding abort_check
check-Spreads left st request completed t =
    let (st1, e1, s1, a1) = own-Spreads left st st.abort_flag t in
    let (st2, e2, s2, a2) = answer-Spreads left st1 request s1.told in
    let (s3, a3) = drain-Spreads left st2 completed s2.told in
    (
      abort_drain st2 completed,
      rw (e1, e2) refl,
      (Spreads-trans s1 (Spreads-trans s2 s3), λ f. a3 (s2.still (a1 f)), λ rank e. a3 (a2 rank e)),
    )
