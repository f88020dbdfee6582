-- ===== src/Collective/Flow/Root.antt =====
-- The result at the root, and the reduction that begins then.
use mathlib.Core.Path.{subst}
use native.Mathlib.Decide.{ℕ_discrete}
use libcircle.Prelude.{
  ℕ, zero, suc, ◌+◌, ◌<◌, ◌≡◌, ◌≢◌, refl, sym, ◌∙◌, inl, inr, Bool, true, false, Option, none, some,
  arith, update, update_self, update_other, Option-cases,
}
use libcircle.Collective.Flow.{answers}
use libcircle.Collective.Flow.Count.{count_set, count_set-full, count_set-none, count_set-same}
use libcircle.Collective.Flow.Turn.{IsFamily, IsTurn, IsNew, got, waits-got}
use libcircle.Collective.Flow.Back.{
  Answered, answers_cases, answers_here, got-answered, got-parts, some_flag,
}

module _ {n : ℕ} {first kids : ℕ → ℕ} (fam : IsFamily n first kids) {raised : ℕ → Bool}
    {replies : ℕ → ℕ} {up down : ℕ → Option Bool} {told : ℕ → Bool}
    (turn : IsTurn n first kids raised replies up down told) (here : 0 < n)
    (all : replies 0 ≡ kids 0) where
  open turn use {sent, back, heard, counted, full, root, pass, late}

  -- Every rank but the root waits for the answer, and has been heard by its parent.
  heard_by :
      (p j : ℕ)
      → p < n
      → j < kids p
      → (0 < p → told p ≡ true)
      → got raised up down (first p + j) ≡ true
  heard_by zero j lt inside h =
      count_set-full (λ a. got raised up down (first 0 + a)) (kids 0) (sym (counted 0 here) ∙ all) j
        inside
  heard_by (suc p) j lt inside h =
      waits-got fam turn (suc p) j lt inside (heard (suc p) lt (h (omega arith))).0

  reported : (m c : ℕ) → c < m → 0 < c → c < n → (told c ≡ true) × (got raised up down c ≡ true)
  reported zero c few h lt = absurd (omega arith)
  reported (suc m) c few h lt =
      let (p, j, less, inside, e) = fam.above c h lt in
      let above : 0 < p → told p ≡ true = λ h'. (reported m p (omega arith) h' (omega arith)).0 in
      let g = heard_by p j (omega arith) inside above in
      rw e (pass p j (omega arith) inside (new p above) g, g)
    where
      new : (p : ℕ) → (0 < p → told p ≡ true) → IsNew raised told p
      new zero h = inl root
      new (suc p) h = inr (h (omega arith))

  pub all-told : (c : ℕ) → 0 < c → c < n → (told c ≡ true) × (got raised up down c ≡ true)
  all-told c h lt = reported (suc c) c (omega arith) h lt

  -- No message is under way.
  pub none_flies : (c : ℕ) → c < n → (up c ≡ none) × (down c ≡ none)
  none_flies zero lt = (
    elim (Option-cases (up 0)) [
      | inl e ↦ e
      | inr (f, e) ↦ cc (root, (heard 0 lt (sent 0 lt f e)).0)
    ],
    elim (Option-cases (down 0)) [ inl e ↦ e | inr (x, e) ↦ cc (root, (back 0 lt x e).0) ],
  )
  none_flies (suc c) lt =
      let (_, g) = all-told (suc c) (omega arith) lt in
      let (_, u, d) = got-parts raised up down (suc c) g in (u, d)

  waits : (c : ℕ) → 0 < c → c < n → raised c ≡ true
  waits c h lt = (heard c lt (all-told c h lt).0).0

  module _ where
    abbrev next : ℕ → Option Bool
    next = answers (first 0) (kids 0) false down

    gone : (j : ℕ) → j < kids 0 → got raised up next (first 0 + j) ≡ false
    gone j inside =
        got-answered raised up next (first 0 + j) false
          (answers_here (first 0) (kids 0) false down j inside)

    kept :
        (q j : ℕ)
        → q < n
        → j < kids q
        → 0 ≢ q
        → got raised up next (first q + j) ≡ got raised up down (first q + j)
    kept q j lt' inside d = elim (answers_cases (first 0) (kids 0) false down (first q + j)) [
      | inl (a, inside', e, _) ↦ absurd (d (sym (fam.apart q 0 j a lt' here inside inside' e)))
      | inr (away, e) ↦ rw e refl
    ]

    answered :
        (j : ℕ)
        → j < n
        → (y : Bool) → next j ≡ some y
        → Answered (first 0) (kids 0) false down j
        → (raised j ≡ true) × (up j ≡ none) × (y ≡ false)
    answered j lt' y e (inl (a, inside, q, e')) =
        let above : 0 < j = omega (arith, q, (fam.inside 0 a here inside).0) in
        (waits j above lt', (none_flies j lt').0, sym (some_flag (sym e' ∙ e)))
    answered j lt' y e (inr (away, e')) = cc (e, e', (none_flies j lt').1)

    -- A reduction that is not the last ends at the root, and another one begins.
    pub settle-IsTurn :
        IsTurn n first kids raised
          (update replies 0 0)
          up
          (answers (first 0) (kids 0) false down)
          (λ _. false)
    settle-IsTurn = record {
      sent = λ i lt f e. cc (e, (none_flies i lt).0);
      back = λ j lt' y e. answered j lt' y e (answers_cases (first 0) (kids 0) false down j);
      heard = λ i lt e. cc e;
      counted = λ q lt'. elim (ℕ_discrete 0 q) [
        | yes e ↦
            subst
              (λ a.
                update replies 0 0 a ≡ count_set (λ j. got raised up next (first a + j)) (kids a))
              e
              (update_self replies 0 0
                ∙ sym (
                    count_set-none (λ j. got raised up next (first 0 + j)) (kids 0)
                      (λ j inside. gone j inside)))
        | no d ↦
            update_other replies 0 q 0 d
            ∙ counted q lt'
            ∙ count_set-same _ _ (kids q) (λ j inside. sym (kept q j lt' inside d))
      ];
      full = λ q lt' e. ground (arith, full q lt', root);
      root = root;
      pass = λ q j lt' inside new e. elim (ℕ_discrete 0 q) [
        | yes e' ↦ cc (
          e,
          subst (λ a. got raised up next (first a + j) ≡ false) e'
              (gone j (subst (λ a. j < kids a) (sym e') inside)),
        )
        | no d ↦ elim new [ inl r ↦ cc (r, waits q (omega (arith, d)) lt') | inr f ↦ cc f ]
      ];
      late = λ q j lt' inside e. cc e;
    }
