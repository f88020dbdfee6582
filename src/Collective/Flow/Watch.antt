-- ===== src/Collective/Flow/Watch.antt =====
-- While a reduction is under way, either the ranks that have reported have no work and owe none, or
-- something says that the reduction will not be the last.
use mathlib.Core.Path.{subst}
use native.Mathlib.Decide.{ℕ_discrete}
use libcircle.Prelude.{
  ℕ, ◌+◌, ◌-◌, ◌<◌, ◌≡◌, refl, sym, ◌∙◌, ap, ◌⊎◌, inl, inr, Bool, true, false, ◌&&◌, Option, none,
  some, List, [], ◌∷◌, ◌++◌, arith, update, Bool-cases, ◌==◌, All, if◌then◌else◌,
}

pub data Doubt (n : ℕ) (flag : ℕ → Bool) (owed : ℕ → ℕ) (up : ℕ → Option Bool) (told : ℕ → Bool)
    : Type 0 where
  low_flag : (j : ℕ) → j < n → told j ≡ false → flag j ≡ false → Doubt n flag owed up told
  debt : (j : ℕ) → j < n → told j ≡ false → 0 < owed j → Doubt n flag owed up told
  low_message : (j : ℕ) → j < n → up j ≡ some false → Doubt n flag owed up told

abbrev pub IsWatched :
    ℕ → (ℕ → Bool) → (ℕ → Bool) → (ℕ → ℕ) → (ℕ → Option Bool) → (ℕ → Bool) → Type 0
IsWatched n busy flag owed up told =
    Doubt n flag owed up told ⊎ ((i : ℕ) → i < n → told i ≡ true → (busy i ≡ false) × (owed i ≡ 0))

module _ {n : ℕ} {busy flag : ℕ → Bool} {owed : ℕ → ℕ} {up : ℕ → Option Bool} {told : ℕ → Bool}
    (watch : IsWatched n busy flag owed up told) where
  pub finish-IsWatched : (i : ℕ) → IsWatched n (update busy i false) flag owed up told
  finish-IsWatched i = elim watch [
    | inl d ↦ inl d
    | inr calm ↦ inr (λ j lt t. ground (arith, calm j lt t))
  ]

  -- A rank that owes: it has not reported, or there is a doubt already.
  owes-Doubt : (i : ℕ) → i < n → 0 < owed i → Doubt n flag owed up told
  owes-Doubt i lt h = elim watch [
    | inl d ↦ d
    | inr calm ↦ elim (Bool-cases (told i)) [
      | inl t ↦ absurd (omega (arith, (calm i lt t).1))
      | inr f ↦ debt i lt f h
    ]
  ]

  pub receive-IsWatched :
      (i j : ℕ) → i < n → 0 < owed i → IsWatched n (update busy j true) flag owed up told
  receive-IsWatched i j lt h = inl (owes-Doubt i lt h)

  pub give-IsWatched :
      (i : ℕ) → i < n → busy i ≡ true → IsWatched n busy flag (update owed i (owed i + 1)) up told
  give-IsWatched i lt b = elim watch [
    | inl (low_flag j lt' t e) ↦ inl (low_flag j lt' t e)
    | inl (debt j lt' t h) ↦ inl (debt j lt' t (ground arith))
    | inl (low_message j lt' e) ↦ inl (low_message j lt' e)
    | inr calm ↦ elim (Bool-cases (told i)) [
      | inl t ↦ cc (b, (calm i lt t).0)
      | inr f ↦ inl (debt i lt f (ground arith))
    ]
  ]

  pub receipt-IsWatched :
      (i : ℕ)
      → i < n
      → 0 < owed i
      → IsWatched n busy (update flag i false) (update owed i (owed i - 1)) up told
  receipt-IsWatched i lt h = elim (owes-Doubt i lt h) [
    | low_flag j lt' t e ↦ inl (low_flag j lt' t (ground arith))
    | debt j lt' t h' ↦ elim (ℕ_discrete i j) [
      | yes e ↦ inl (low_flag j lt' t (ground arith))
      | no d ↦ inl (debt j lt' t (ground arith))
    ]
    | low_message j lt' e ↦ inl (low_message j lt' e)
  ]

  -- Rank `p`, which has not reported, hears from `c`.
  pub collect-IsWatched :
      (p c : ℕ) (f : Bool)
      → p < n
      → told p ≡ false
      → up c ≡ some f
      → IsWatched n busy (update flag p (flag p && f)) owed (update up c none) told
  collect-IsWatched p c f lt open_ flies = elim watch [
    | inl (low_flag j lt' t e) ↦ inl (low_flag j lt' t (ground arith))
    | inl (debt j lt' t h) ↦ inl (debt j lt' t h)
    | inl (low_message j lt' e) ↦ elim (ℕ_discrete c j) [
      | yes q ↦ inl (low_flag p lt open_ (ground arith))
      | no d ↦ inl (low_message j lt' (ground arith))
    ]
    | inr calm ↦ inr calm
  ]

  -- Rank `i` reports.
  pub report-IsWatched :
      (i : ℕ)
      → i < n
      → busy i ≡ false
      → owed i ≡ 0
      → up i ≡ none
      → IsWatched n busy
          (update flag i true)
          owed
          (update up i (some (flag i)))
          (update told i true)
  report-IsWatched i lt idle settled empty = elim watch [
    | inl (low_flag j lt' t e) ↦ elim (ℕ_discrete i j) [
      | yes q ↦ inl (low_message j lt' (ground arith))
      | no d ↦ inl (low_flag j lt' (ground arith) (ground arith))
    ]
    | inl (debt j lt' t h) ↦ inl (debt j lt' (ground arith) h)
    | inl (low_message j lt' e) ↦ inl (low_message j lt' (ground arith))
    | inr calm ↦ inr (λ j lt' t. ground (arith, calm j lt'))
  ]

  -- When the root has the result, and it is set, no rank has work or owes any.
  pub settle-calm :
      flag 0 ≡ true
      → owed 0 ≡ 0
      → busy 0 ≡ false
      → ((c : ℕ) → 0 < c → c < n → told c ≡ true)
      → ((c : ℕ) → c < n → up c ≡ none)
      → (i : ℕ) → i < n
      → (busy i ≡ false) × (owed i ≡ 0)
  settle-calm f settled idle all empty i lt = elim watch [
    | inl (low_flag j lt' t e) ↦ elim (ℕ_discrete 0 j) [
      | yes q ↦ cc (f, e, q)
      | no d ↦ cc (all j (omega (arith, d)) lt', t)
    ]
    | inl (debt j lt' t h) ↦ elim (ℕ_discrete 0 j) [
      | yes q ↦ absurd (ground arith)
      | no d ↦ cc (all j (omega (arith, d)) lt', t)
    ]
    | inl (low_message j lt' e) ↦ cc (empty j lt', e)
    | inr calm ↦ elim (ℕ_discrete 0 i) [
      | yes q ↦ ground arith
      | no d ↦ calm i lt (all i (omega (arith, d)) lt)
    ]
  ]

-- How many of the transfers come from a rank.
unfoldable pub from_rank : ℕ → List (ℕ × ℕ) → ℕ
from_rank i [] = 0
from_rank i ((s, d) ∷ work) = (if s == i then 1 else 0) + from_rank i work

pub from_rank-middle :
    (k i j : ℕ) (before after : List (ℕ × ℕ))
    → from_rank k (before ++ (i, j) ∷ after)
      ≡ from_rank k (before ++ after) + (if i == k then 1 else 0)
unfolding from_rank
from_rank-middle k i j [] after = omega arith
from_rank-middle k i j ((s, d) ∷ before) after = omega (arith, from_rank-middle k i j before after)

All-middle :
    {A : Type 0} (P : A → Type 0) (xs : List A) (y : A) (ys : List A)
    → All P (xs ++ y ∷ ys)
    → P y × All P (xs ++ ys)
All-middle P [] y ys h = h
All-middle P (x ∷ xs) y ys h = let (p, rest) = All-middle P xs y ys h.1 in (p, (h.0, rest))

-- Each rank owes the transfers that are under way and those of which the receipt is, and all come from
-- one of the ranks.
pub record IsBalanced (n : ℕ) (owed : ℕ → ℕ) (work : List (ℕ × ℕ)) (receipts : ℕ → ℕ) : Type 0 where
  pub owes : (i : ℕ) → i < n → owed i ≡ from_rank i work + receipts i
  pub sources : All (λ t. t.0 < n) work

module _ {n : ℕ} {owed : ℕ → ℕ} {work : List (ℕ × ℕ)} {receipts : ℕ → ℕ}
    (balance : IsBalanced n owed work receipts) where
  open balance use {owes, sources}

  pub give-IsBalanced :
      (i j : ℕ) → i < n → IsBalanced n (update owed i (owed i + 1)) ((i, j) ∷ work) receipts
  unfolding from_rank
  give-IsBalanced i j lt = record {
    owes = λ k lt'. ground (arith, owes k lt');
    sources = (lt, sources);
  }

  pub receipt-IsBalanced :
      (i : ℕ)
      → 0 < receipts i
      → IsBalanced n (update owed i (owed i - 1)) work (update receipts i (receipts i - 1))
  receipt-IsBalanced i h = record { owes = λ k lt'. ground (arith, owes k lt'); sources = sources }

  -- A transfer under way is owed by its source, and when it has arrived its receipt is under way.
  pub receive-IsBalanced :
      (i j : ℕ) (before after : List (ℕ × ℕ))
      → work ≡ before ++ (i, j) ∷ after
      → (i < n)
        × (0 < owed i)
        × IsBalanced n owed (before ++ after) (update receipts i (receipts i + 1))
  receive-IsBalanced i j before after e =
      let (lt, rest) = All-middle _ before (i, j) after (subst (All _) e sources) in
      let one = λ (k : ℕ). ap (from_rank k) e ∙ from_rank-middle k i j before after in
      (
        lt,
        ground (arith, owes i lt, one i),
        record { owes = λ k lt'. ground (arith, owes k lt', one k); sources = rest },
      )

  -- Where no rank owes, nothing is under way.
  pub settled-IsBalanced :
      ((i : ℕ) → i < n → owed i ≡ 0) → (work ≡ []) × ((i : ℕ) → i < n → receipts i ≡ 0)
  unfolding from_rank
  settled-IsBalanced h = (no_work work sources owes, λ i lt. omega (arith, owes i lt, h i lt))
    where
      no_work :
          (w : List (ℕ × ℕ))
          → All (λ t. t.0 < n) w
          → ((i : ℕ) → i < n → owed i ≡ from_rank i w + receipts i)
          → w ≡ []
      no_work [] s e = refl
      no_work ((i, j) ∷ w) s e = absurd (ground (arith, e i s.0, h i s.0))

pub empty-IsBalanced :
    {n : ℕ} {work : List (ℕ × ℕ)} {receipts : ℕ → ℕ}
    → work ≡ []
    → ((i : ℕ) → i < n → receipts i ≡ 0)
    → IsBalanced n (λ _. 0) work receipts
unfolding from_rank
empty-IsBalanced {n} {work} {receipts} e h =
    subst (λ w. IsBalanced n (λ _. 0) w receipts) (sym e)
      (record { owes = λ i lt. omega (arith, h i lt); sources = tt })
