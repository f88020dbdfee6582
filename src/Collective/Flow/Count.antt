-- ===== src/Collective/Flow/Count.antt =====
-- How many of the first `n` members of a family are set.
use libcircle.Prelude.{ℕ, zero, suc, ◌+◌, ◌≤◌, ◌<◌, ◌≡◌, ◌≢◌, refl, Bool, true, false, arith}
use native.Mathlib.Decide.{ℕ_discrete}

abbrev pub one_if : Bool → ℕ
one_if true = 1
one_if false = 0

unfoldable pub count_set : (ℕ → Bool) → ℕ → ℕ
count_set f zero = 0
count_set f (suc n) = count_set f n + one_if (f n)

one_if-le : (b : Bool) → one_if b ≤ 1
one_if-le true = omega arith
one_if-le false = omega arith

pub count_set-le : (f : ℕ → Bool) (n : ℕ) → count_set f n ≤ n
unfolding count_set
count_set-le f zero = omega arith
count_set-le f (suc n) = omega (arith, count_set-le f n, one_if-le (f n))

full-bit : (b : Bool) → one_if b ≡ 1 → b ≡ true
full-bit true e = refl
full-bit false e = absurd (omega (arith, e))

-- All are set.
pub count_set-full : (f : ℕ → Bool) (n : ℕ) → count_set f n ≡ n → (j : ℕ) → j < n → f j ≡ true
unfolding count_set
count_set-full f zero e j lt = absurd (omega arith)
count_set-full f (suc n) e j lt =
    let b = one_if-le (f n) in
    let c = count_set-le f n in
    elim (ℕ_discrete j n) [
      | yes q ↦ rw q (full-bit (f n) (omega (arith, e, b, c)))
      | no d ↦ count_set-full f n (omega (arith, e, b, c)) j (omega (arith, d))
    ]

-- None is set.
pub count_set-none : (f : ℕ → Bool) (n : ℕ) → ((j : ℕ) → j < n → f j ≡ false) → count_set f n ≡ 0
unfolding count_set
count_set-none f zero h = refl
count_set-none f (suc n) h =
    let e = count_set-none f n (λ j lt. h j (omega arith)) in
    rw (h n (omega arith)) (omega (arith, e))

pub count_set-same :
    (f g : ℕ → Bool) (n : ℕ) → ((j : ℕ) → j < n → f j ≡ g j) → count_set f n ≡ count_set g n
unfolding count_set
count_set-same f g zero h = refl
count_set-same f g (suc n) h =
    let e = count_set-same f g n (λ j lt. h j (omega arith)) in rw (h n (omega arith), e) refl

-- One more is set.
pub count_set-more :
    (f g : ℕ → Bool) (n i : ℕ)
    → i < n
    → f i ≡ false
    → g i ≡ true
    → ((j : ℕ) → j < n → i ≢ j → f j ≡ g j)
    → count_set g n ≡ count_set f n + 1
unfolding count_set
count_set-more f g zero i lt a b h = absurd (omega arith)
count_set-more f g (suc n) i lt a b h = elim (ℕ_discrete i n) [
  | yes q ↦
      let e = count_set-same f g n (λ j lt'. h j (omega arith) (λ p. omega (arith, p, q))) in
      let a' : f n ≡ false = rw q at a in
      let b' : g n ≡ true = rw q at b in rw (a', b', e) (omega arith)
  | no d ↦
      let e = count_set-more f g n i (omega (arith, d)) a b (λ j lt' p. h j (omega arith) p) in
      rw (h n (omega arith) d) (omega (arith, e))
]
