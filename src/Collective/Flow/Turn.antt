-- ===== src/Collective/Flow/Turn.antt =====
-- Where the messages of one reduction are, in a tree of ranks.
use mathlib.Core.Path.{subst}
use native.Mathlib.Decide.{ℕ_discrete}
use libcircle.Prelude.{
  ℕ, ◌+◌, ◌<◌, ◌≡◌, ◌≢◌, refl, sym, ◌∙◌, ◌⊎◌, inl, inr, Bool, true, false, ◌&&◌, Option, none, some,
  arith, is_none, update, update_self, update_other, Option-cases,
}
use libcircle.Collective.Flow.Count.{count_set, count_set-full, count_set-same, count_set-more}

-- The ranks below `n` as a tree: the children of `p` are the `kids p` ranks from `first p` on.
pub record IsFamily (n : ℕ) (first kids : ℕ → ℕ) : Type 0 where
  pub inside : (p j : ℕ) → p < n → j < kids p → (p < first p + j) × (first p + j < n)
  pub apart :
      (p q j i : ℕ) → p < n → q < n → j < kids p → i < kids q → first p + j ≡ first q + i → p ≡ q
  pub above :
      (c : ℕ) → 0 < c → c < n → (p : ℕ) × (j : ℕ) × (p < c) × (j < kids p) × (c ≡ first p + j)

-- The parent of `c` has its message, and `c` waits for the answer.
abbrev pub got : (ℕ → Bool) → (ℕ → Option Bool) → (ℕ → Option Bool) → ℕ → Bool
got raised up down c = raised c && is_none (up c) && is_none (down c)

-- A rank that does not wait for the answer of an earlier reduction. `told` says who has reported in
-- the present one.
abbrev pub IsNew : (raised told : ℕ → Bool) → ℕ → Type 0
IsNew raised told p = (raised p ≡ false) ⊎ (told p ≡ true)

-- One reduction: `raised` says who waits for an answer, `replies` from how many children a rank has
-- heard. All answers under way are those of the one before, which was not the last.
pub record IsTurn (n : ℕ) (first kids : ℕ → ℕ) (raised : ℕ → Bool) (replies : ℕ → ℕ)
    (up down : ℕ → Option Bool) (told : ℕ → Bool) : Type 0 where
  pub sent : (i : ℕ) → i < n → (f : Bool) → up i ≡ some f → told i ≡ true
  pub back :
      (i : ℕ)
      → i < n
      → (x : Bool) → down i ≡ some x
      → (raised i ≡ true) × (up i ≡ none) × (x ≡ false)
  pub heard : (i : ℕ) → i < n → told i ≡ true → (raised i ≡ true) × (down i ≡ none)
  pub counted :
      (p : ℕ) → p < n → replies p ≡ count_set (λ j. got raised up down (first p + j)) (kids p)
  pub full : (p : ℕ) → p < n → raised p ≡ true → replies p ≡ kids p
  pub root : raised 0 ≡ false
  pub pass :
      (p j : ℕ)
      → p < n
      → j < kids p
      → IsNew raised told p
      → got raised up down (first p + j) ≡ true
      → told (first p + j) ≡ true
  pub late : (p j : ℕ) → p < n → j < kids p → told (first p + j) ≡ true → IsNew raised told p

module _ {n : ℕ} {first kids : ℕ → ℕ} (fam : IsFamily n first kids) {raised : ℕ → Bool}
    {replies : ℕ → ℕ} {up down : ℕ → Option Bool} {told : ℕ → Bool}
    (turn : IsTurn n first kids raised replies up down told) where
  open turn use {sent, back, heard, counted, full, root, pass, late}

  -- The children of a rank that waits have all been heard.
  pub waits-got :
      (p j : ℕ) → p < n → j < kids p → raised p ≡ true → got raised up down (first p + j) ≡ true
  waits-got p j lt inside e =
      count_set-full (λ a. got raised up down (first p + a)) (kids p)
        (sym (counted p lt) ∙ full p lt e) j inside

  -- Rank `i` reports.
  pub report-IsTurn :
      (i : ℕ) (f : Bool)
      → i < n
      → i ≢ 0
      → raised i ≡ false
      → replies i ≡ kids i
      → IsTurn n first kids
          (update raised i true)
          replies
          (update up i (some f))
          down
          (update told i true)
  report-IsTurn i f lt inner open_ all = record {
    sent = λ j lt' g e. ground (arith, sent j lt' g);
    back = λ j lt' x e. ground (arith, back j lt' x);
    heard = λ j lt' e. ground (arith, heard j lt', none_down);
    counted = λ p lt'. counted p lt' ∙ count_set-same _ _ (kids p) (λ j inside. same (first p + j));
    full = λ p lt' e. ground (arith, full p lt');
    root = ground (arith, root);
    pass = λ p j lt' inside new e.
        spread (first p + j) (pass p j lt' inside (older p new) (same (first p + j) ∙ e));
    late = λ p j lt' inside e.
        newer p (first p + j) lt' (late p j lt' inside) (waits-got p j lt' inside) e;
  }
    where
      none_down : down i ≡ none
      none_down = elim (Option-cases (down i)) [
        | inl e ↦ e
        | inr (x, e) ↦ cc ((back i lt x e).0, open_)
      ]

      same :
          (c : ℕ) → got raised up down c ≡ got (update raised i true) (update up i (some f)) down c
      same c = ground (arith, open_)

      spread : (c : ℕ) → told c ≡ true → update told i true c ≡ true
      spread c e = ground arith

      older : (p : ℕ) → IsNew (update raised i true) (update told i true) p → IsNew raised told p
      older p new = ground (arith, open_)

      newer :
          (p c : ℕ)
          → p < n
          → (told c ≡ true → IsNew raised told p)
          → (raised p ≡ true → got raised up down c ≡ true)
          → update told i true c ≡ true
          → IsNew (update raised i true) (update told i true) p
      newer p c lt' late' waits e = ground (arith, open_)

  -- Rank `p` hears from its child.
  pub collect-IsTurn :
      (p j : ℕ) (f : Bool)
      → p < n
      → j < kids p
      → replies p < kids p
      → up (first p + j) ≡ some f
      → IsTurn n first kids raised
          (update replies p (replies p + 1))
          (update up (first p + j) none)
          down
          told
  collect-IsTurn p j f lt inside few flies = record {
    sent = λ i lt' g e. ground (arith, sent i lt' g);
    back = λ i lt' x e. ground (arith, back i lt' x);
    heard = heard;
    counted = λ q lt'. elim (ℕ_discrete p q) [
      | yes e ↦
          subst
            (λ a.
              update replies p (replies p + 1) a
              ≡ count_set (λ i. got raised (update up (first p + j) none) down (first a + i))
                  (kids a))
            e (update_self replies p (replies p + 1) ∙ one)
      | no d ↦
          update_other replies p q (replies p + 1) d
          ∙ counted q lt'
          ∙ count_set-same _ _ (kids q)
              (λ i inside'. kept (first q + i) (λ e. d (fam.apart p q j i lt lt' inside inside' e)))
    ];
    full = λ q lt' e. ground (arith, full q lt');
    root = root;
    pass = λ q i lt' inside' new e. sooner q i lt' (pass q i lt' inside' new) e;
    late = late;
  }
    where
      told_c : told (first p + j) ≡ true
      told_c = sent (first p + j) (fam.inside p j lt inside).1 f flies

      kept :
          (a : ℕ)
          → first p + j ≢ a
          → got raised up down a ≡ got raised (update up (first p + j) none) down a
      kept a d = rw (update_other up (first p + j) a none d) refl

      one :
          replies p + 1
          ≡ count_set (λ i. got raised (update up (first p + j) none) down (first p + i)) (kids p)
      one =
          let (raised_c, down_c) = heard (first p + j) (fam.inside p j lt inside).1 told_c in
          let more =
            count_set-more (λ i. got raised up down (first p + i))
              (λ i. got raised (update up (first p + j) none) down (first p + i)) (kids p) j inside
              (rw (flies, raised_c) refl)
              (rw (update_self up (first p + j) none, raised_c, down_c) refl)
              (λ i inside' d. kept (first p + i) (λ e. d (omega (arith, e)))) in
          omega (arith, counted p lt, more)

      sooner :
          (q i : ℕ)
          → q < n
          → (got raised up down (first q + i) ≡ true → told (first q + i) ≡ true)
          → got raised (update up (first p + j) none) down (first q + i) ≡ true
          → told (first q + i) ≡ true
      sooner q i lt' old e = elim (ℕ_discrete (first p + j) (first q + i)) [
        | yes same ↦ subst (λ a. told a ≡ true) same told_c
        | no d ↦ old (ground arith)
      ]
