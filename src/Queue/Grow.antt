-- ===== src/Queue/Grow.antt =====
-- The two growth loops of queue.c (also that of CIRCLE_extend_offsets in token.c): they end, and
-- where.
use libcircle.Prelude.{ℕ, zero, suc, ◌+◌, ◌-◌, ◌≤◌, ◌<◌, ◌≡◌, ◌⊎◌, inl, inr, arith, ltb, Bool-cases}
use native.Mathlib.Nat.{mod-eq_of_lt}
use libcircle.C.{ok, int_limit, size_mod}
use libcircle.Queue.{grow_int, grow_size}

-- What a growth loop from `n` by `step` returns: the first value that reaches the target.
pub record IsGrown (step n target r : ℕ) : Type 0 where
  pub reaches : target ≤ r
  pub grows : n ≤ r
  pub least : (r ≡ n) ⊎ (r < target + step)

pub grow_int-IsGrown :
    (fuel n target : ℕ)
    → target - n < fuel
    → target + 4096 ≤ int_limit
    → (r : ℕ) × (grow_int fuel n target ≡ ok r) × IsGrown 4096 n target r
unfolding grow_int
grow_int-IsGrown zero n target h lim = absurd (omega arith)
grow_int-IsGrown (suc fuel) n target h lim = elim (Bool-cases (ltb n target)) [
  | inl more ↦
      let (r, e, g) = grow_int-IsGrown fuel (n + 4096) target (ground arith) lim in
      (r, ground arith, ground arith)
  | inr done ↦ (n, rw done, ground arith)
]

-- The loop on a size_t whose target leaves room for one more step below the modulus ends, before it
-- wraps, at a value that reaches the target, is no less than where it began, and is there already
-- or lies less than a step above the target.
pub grow_size-IsGrown :
    (step fuel n target : ℕ)
    → 0 < step
    → target - n < fuel
    → target + step ≤ size_mod
    → (r : ℕ) × (grow_size step fuel n target ≡ ok r) × IsGrown step n target r
unfolding grow_size
grow_size-IsGrown step zero n target pos h lim = absurd (omega arith)
grow_size-IsGrown step (suc fuel) n target pos h lim = elim (Bool-cases (ltb n target)) [
  | inl more ↦
      let small : n + step < size_mod = ground arith in
      let (r, e, g) = grow_size-IsGrown step fuel (n + step) target pos (ground arith) lim in
      (r, rw (more, mod-eq_of_lt small) e, ground arith)
  | inr done ↦ (n, rw done, ground arith)
]
