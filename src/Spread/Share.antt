-- ===== src/Spread/Share.antt =====
-- A split gives away no more and no less than the queue holds, in even shares, and leaves this rank
-- with at least one item.
use native.Mathlib.Nat.{div-add-mod', mod-lt, mul_comm}
use libcircle.Prelude.{
  ℕ, zero, suc, ◌+◌, ◌-◌, ◌*◌, ◌/◌, ◌%◌, ◌<◌, ◌≡◌, ◌⊎◌, inl, inr, refl, Bool, true, false, List, [],
  ◌∷◌, ◌++◌, arith, length, length-append, length-replicate, replicate, All, All-append, pos→==zero,
  Bool-cases, ltb, ltb→lt, ltb→le, ◌==◌, ap,
}
use libcircle.C.{ok}
use libcircle.Spread.{spread_counts, random_count, split_sizes}

abbrev pub sum : List ℕ → ℕ
sum [] = 0
sum (x ∷ xs) = x + sum xs

sum-append : (xs ys : List ℕ) → sum (xs ++ ys) ≡ sum xs + sum ys
sum-append [] ys = omega arith
sum-append (x ∷ xs) ys = omega (arith, sum-append xs ys)

sum-replicate : (n a : ℕ) → sum (replicate n a) ≡ n * a
sum-replicate zero a = omega arith
sum-replicate (suc n) a = omega (arith, sum-replicate n a)

All-replicate {ℓ} : (P : ℕ → Type ℓ) (n a : ℕ) → P a → All P (replicate n a)
All-replicate P zero a h = tt
All-replicate P (suc n) a h = (h, All-replicate P n a h)

shares_add : (e d b : ℕ) → e * (b + 1) + d * b ≡ (e + d) * b + e
shares_add e d b = omega arith

-- The first of the shares is not 0, where there is something to share.
first_share :
    (e d b : ℕ)
    → 0 < d
    → 0 < e + b
    → (x : ℕ) × (xs : List ℕ) × (replicate e (b + 1) ++ replicate d b ≡ x ∷ xs) × (0 < x)
first_share zero zero b h more = absurd (omega arith)
first_share zero (suc d) b h more = (b, replicate d b, refl, omega arith)
first_share (suc e) d b h more = (b + 1, replicate e (b + 1) ++ replicate d b, refl, omega arith)

-- `count` items in `ranks` shares that differ by at most one.
pub record IsSpread (ranks count : ℕ) (sizes : List ℕ) : Type 0 where
  pub total : sum sizes ≡ count
  pub shares : length sizes ≡ ranks
  pub first : 0 < count → (x : ℕ) × (xs : List ℕ) × (sizes ≡ x ∷ xs) × (0 < x)
  pub even : All (λ n. (n ≡ count / ranks) ⊎ (n ≡ count / ranks + 1)) sizes

-- The counts add up to the items, there is one for each rank, and they differ by at most one.
pub spread_counts-IsSpread :
    (ranks count : ℕ)
    → 0 < ranks
    → (sizes : List ℕ) × (spread_counts ranks count ≡ ok sizes) × IsSpread ranks count sizes
unfolding spread_counts
spread_counts-IsSpread ranks count h =
    let base = count / ranks in
    let extra = count - base * ranks in
    let low = replicate extra (base + 1) in
    let high = replicate (ranks - extra) base in
    let some_left : extra < ranks = omega (arith, div-add-mod' count ranks, mod-lt count h) in
    let whole : extra + (ranks - extra) ≡ ranks = omega arith in
    let together : (extra + (ranks - extra)) * base ≡ base * ranks =
      rw whole (mul_comm ranks base) in
    (
      low ++ high,
      rw (pos→==zero ranks h),
      record {
        total = omega (
          arith,
          sum-append low high,
          sum-replicate extra (base + 1),
          sum-replicate (ranks - extra) base,
          shares_add extra (ranks - extra) base,
          together,
          div-add-mod' count ranks,
        );
        shares = omega (
          arith,
          length-append low high,
          length-replicate extra (base + 1),
          length-replicate (ranks - extra) base,
        );
        first = λ more.
            first_share extra (ranks - extra) base (omega arith) (elim (Bool-cases (ltb 0 base)) [
              | inl full ↦ omega (arith, ltb→lt 0 base full)
              | inr bare ↦
                  let nothing : base ≡ 0 = omega (arith, ltb→le 0 base bare) in
                  rw nothing (omega arith)
            ]);
        even =
            All-append _ low high (All-replicate _ extra (base + 1) (inr refl))
              (All-replicate _ (ranks - extra) base (inl refl));
      },
    )

-- What a split gives: this rank's own share, and one for each requestor.
pub record IsSplit (rcount count : ℕ) (sizes : List ℕ) : Type 0 where
  pub own : ℕ
  pub given : List ℕ
  pub parts : sizes ≡ own ∷ given
  pub keeps : 0 < own
  pub shares : length given ≡ rcount
  pub total : own + sum given ≡ count

equal-IsSplit :
    (rcount count : ℕ)
    → 0 < count
    → (sizes : List ℕ) × (spread_counts (rcount + 1) count ≡ ok sizes) × IsSplit rcount count sizes
equal-IsSplit rcount count h =
    let (sizes, e, p) = spread_counts-IsSpread (rcount + 1) count (omega arith) in
    let (x, xs, e', more) = p.first h in
    (
      sizes,
      e,
      record {
        own = x;
        given = xs;
        parts = e';
        keeps = more;
        shares = omega (arith, p.shares, ap length e');
        total = omega (arith, p.total, ap sum e');
      },
    )

random_count_lem :
    (rand count : ℕ) → 0 < count → (n : ℕ) × (random_count rand count ≡ ok n) × (n < count)
unfolding random_count
random_count_lem rand count h = elim (Bool-cases (rand % count + 1 == count)) [
  | inl top ↦ (rand % count + 1 - 1, rw (pos→==zero count h, top), omega (arith, mod-lt rand h))
  | inr less ↦ (rand % count + 1, rw (pos→==zero count h, less), ground (arith, mod-lt rand h))
]

-- A split, equal or random, of a queue that holds an item among at least one requestor keeps an item here, gives
-- each requestor its share, and the shares add up to what the queue holds.
pub split_sizes-IsSplit :
    (equal : Bool) (rand rcount count : ℕ)
    → 0 < rcount
    → 0 < count
    → (sizes : List ℕ) × (split_sizes equal rand rcount count ≡ ok sizes)
      × IsSplit rcount count sizes
unfolding split_sizes
split_sizes-IsSplit true rand rcount count h more = equal-IsSplit rcount count more
split_sizes-IsSplit false rand rcount count h more =
    let (n, e, lt) = random_count_lem rand count more in
    let (rest, e', p) = spread_counts-IsSpread rcount n h in
    (
      (count - n) ∷ rest,
      rw (e, e'),
      record {
        own = count - n;
        given = rest;
        parts = refl;
        keeps = omega (arith, lt);
        shares = p.shares;
        total = omega (arith, p.total, lt);
      },
    )
