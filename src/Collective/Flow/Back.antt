-- ===== src/Collective/Flow/Back.antt =====
-- The way of the result back through the tree.
use mathlib.Core.Path.{subst}
use native.Mathlib.Decide.{ℕ_discrete}
use libcircle.Prelude.{
  ℕ, ◌+◌, ◌-◌, ◌≤◌, ◌<◌, ◌≡◌, ◌≢◌, refl, sym, ◌∙◌, ap, ◌⊎◌, inl, inr, Bool, true, false, ◌&&◌,
  Option, none, some, arith, update, update_self, update_other, Bool-cases, ltb, leb, le→leb,
  lt→ltb,
}
use libcircle.Collective.Flow.{answers}
use libcircle.Collective.Flow.Count.{count_set, count_set-none, count_set-same}
use libcircle.Collective.Flow.Turn.{IsFamily, IsTurn, got, waits-got}

-- A rank is among those that are answered, or it is not.
abbrev pub Answered : (a m : ℕ) → Bool → (ℕ → Option Bool) → ℕ → Type 0
Answered a m x down c =
    ((j : ℕ) × (j < m) × (c ≡ a + j) × (answers a m x down c ≡ some x))
    ⊎ (((j : ℕ) → j < m → c ≢ a + j) × (answers a m x down c ≡ down c))

pub answers_cases : (a m : ℕ) (x : Bool) (down : ℕ → Option Bool) (c : ℕ) → Answered a m x down c
answers_cases a m x down c = elim (Bool-cases (leb a c && ltb c (a + m))) [
  | inl e ↦
      let (low, high) = both e in
      inl (c - a, omega (arith, low, high), omega (arith, low), rw e refl)
  | inr e ↦ inr (λ j lt q. outside j lt q e, rw e refl)
]
  where
    both : (leb a c && ltb c (a + m)) ≡ true → (a ≤ c) × (c < a + m)
    both e = ground arith

    outside : (j : ℕ) → j < m → c ≡ a + j → (leb a c && ltb c (a + m)) ≡ false → ⊥
    outside j lt q e = ground arith

pub answers_here :
    (a m : ℕ) (x : Bool) (down : ℕ → Option Bool) (j : ℕ)
    → j < m
    → answers a m x down (a + j) ≡ some x
answers_here a m x down j lt =
    rw (le→leb a (a + j) (omega arith), lt→ltb (a + j) (a + m) (omega arith)) refl

pub some_flag : {x y : Bool} → ◌≡◌ {A = Option Bool} (some x) (some y) → x ≡ y
some_flag e = cc e

pub got-answered :
    (raised : ℕ → Bool) (up down : ℕ → Option Bool) (c : ℕ) (x : Bool)
    → down c ≡ some x
    → got raised up down c ≡ false
got-answered raised up down c x e = rw e (ground arith)

pub got-parts :
    (raised : ℕ → Bool) (up down : ℕ → Option Bool) (c : ℕ)
    → got raised up down c ≡ true
    → (raised c ≡ true) × (up c ≡ none) × (down c ≡ none)
got-parts raised up down c e = ground arith

module _ {n : ℕ} {first kids : ℕ → ℕ} (fam : IsFamily n first kids) {raised : ℕ → Bool}
    {replies : ℕ → ℕ} {up down : ℕ → Option Bool} {told : ℕ → Bool}
    (turn : IsTurn n first kids raised replies up down told) where
  open turn use {sent, back, heard, counted, full, root, pass, late}

  module _ (i : ℕ) (x : Bool) (lt : i < n) (flies : down i ≡ some x) where
    no_end : x ≡ false
    no_end = (back i lt x flies).2

    raised_i : raised i ≡ true
    raised_i = (back i lt x flies).0

    untold : told i ≡ false
    untold = ground (arith, heard i lt)

    -- The answers under way, and who waits for one, after it.
    abbrev next : ℕ → Option Bool
    next = answers (first i) (kids i) x (update down i none)

    abbrev got' : ℕ → Bool
    got' = got (update raised i false) up next

    gone : (j : ℕ) → j < kids i → got' (first i + j) ≡ false
    gone j inside =
        got-answered (update raised i false) up next (first i + j) x
          (answers_here (first i) (kids i) x (update down i none) j inside)

    asked :
        (j : ℕ)
        → j < kids i
        → (raised (first i + j) ≡ true) × (up (first i + j) ≡ none) × (down (first i + j) ≡ none)
    asked j inside =
        got-parts raised up down (first i + j) (waits-got fam turn i j lt inside raised_i)

    untold_child : (j : ℕ) → j < kids i → told (first i + j) ≡ false
    untold_child j inside = ground (arith, late i j lt inside, raised_i, untold)

    answered :
        (j : ℕ)
        → j < n
        → (y : Bool) → next j ≡ some y
        → Answered (first i) (kids i) x (update down i none) j
        → (update raised i false j ≡ true) × (up j ≡ none) × (y ≡ false)
    answered j lt' y e (inl (a, inside, q, e')) =
        let (raised_j, up_j, _) = asked a inside in
        let below : i ≢ first i + a = λ p. omega (arith, p, (fam.inside i a lt inside).0) in
        (
          rw q (update_other raised i (first i + a) false below ∙ raised_j),
          rw q up_j,
          sym (some_flag (sym e' ∙ e)) ∙ no_end,
        )
    answered j lt' y e (inr (away, e')) = ground (arith, back j lt' y, sym e' ∙ e)

    still :
        (j : ℕ)
        → j < n
        → told j ≡ true
        → Answered (first i) (kids i) x (update down i none) j
        → (update raised i false j ≡ true) × (next j ≡ none)
    still j lt' e (inl (a, inside, q, e')) = cc (e, ap told q, untold_child a inside)
    still j lt' e (inr (away, e')) = ground (arith, heard j lt' e, untold, e')

    kept :
        (q j : ℕ)
        → q < n
        → j < kids q
        → i ≢ q
        → got' (first q + j) ≡ got raised up down (first q + j)
    kept q j lt' inside d =
        elim (answers_cases (first i) (kids i) x (update down i none) (first q + j)) [
          | inl (a, inside', e, _) ↦ absurd (d (sym (fam.apart q i j a lt' lt inside inside' e)))
          | inr (away, e) ↦ rw e (ground (arith, raised_i, flies))
        ]

    -- Rank `i` passes the answer that it has on to its children.
    pub answer-IsTurn :
        (x ≡ false)
        × IsTurn n first kids
            (update raised i false)
            (update replies i 0)
            up
            (answers (first i) (kids i) x (update down i none))
            told
    answer-IsTurn = (
      no_end,
      record {
        sent = sent;
        back = λ j lt' y e.
            answered j lt' y e (answers_cases (first i) (kids i) x (update down i none) j);
        heard =
            λ j lt' e. still j lt' e (answers_cases (first i) (kids i) x (update down i none) j);
        counted = λ q lt'. elim (ℕ_discrete i q) [
          | yes e ↦
              subst (λ a. update replies i 0 a ≡ count_set (λ j. got' (first a + j)) (kids a)) e
                (update_self replies i 0
                  ∙ sym (
                      count_set-none (λ j. got' (first i + j)) (kids i)
                        (λ j inside. gone j inside)))
          | no d ↦
              update_other replies i q 0 d
              ∙ counted q lt'
              ∙ count_set-same _ _ (kids q) (λ j inside. sym (kept q j lt' inside d))
        ];
        full = λ q lt' e. ground (arith, full q lt');
        root = ground (arith, root);
        pass = λ q j lt' inside new e. elim (ℕ_discrete i q) [
          | yes e' ↦ cc (
            e,
            subst (λ a. got' (first a + j) ≡ false) e'
                (gone j (subst (λ a. j < kids a) (sym e') inside)),
          )
          | no d ↦ pass q j lt' inside (ground arith) (sym (kept q j lt' inside d) ∙ e)
        ];
        late = λ q j lt' inside e. ground (arith, late q j lt' inside);
      },
    )
