-- ===== src/Transfer/Span.antt =====
-- How many bytes a transfer takes, and that backing off ends.
use libcircle.Prelude.{
  ℕ, zero, suc, ◌+◌, ◌-◌, ◌%◌, ◌≤◌, ◌<◌, ◌≡◌, ap, List, ◌∷◌, arith, ltb, length, Bool-cases, lt→ltb,
  le→leb, ltb→lt, ltb→le, inl, inr,
}
use libcircle.C.{ok, int_limit, size_mod}
use libcircle.C.Strings.{load_str-CStr}
use libcircle.Queue.{Queue}
use libcircle.Queue.Rep.{Holds}
use libcircle.Transfer.{int_max, span, back_off, shrink}
use libcircle.Transfer.Shift.{Layout-starts}

back_off_bounds : (n : ℕ) → 1 < n → (0 < back_off n) × (back_off n < n)
unfolding back_off
back_off_bounds n h = ground arith

module _ {q : Queue} {x : List ℕ} {xs : List (List ℕ)} (h : Holds q (x ∷ xs)) where
  -- From the start of the n-th item from the end up to the end of the last.
  pub width : ℕ → ℕ
  width n = h.offsets (length xs) + length x + 1 - h.offsets (suc (length xs) - n)

  pub width_bounds :
      (n : ℕ)
      → 0 < n
      → n ≤ suc (length xs)
      → (h.offsets (suc (length xs) - n) ≤ h.offsets (length xs))
        × (h.offsets (suc (length xs) - n) + width n ≡ h.offsets (length xs) + length x + 1)
        × (h.offsets (length xs) + length x + 1 ≤ q.head)
  unfolding width
  width_bounds n pos_ le =
      let first = suc (length xs) - n in
      let top : first + (n - 1) ≡ length xs = omega arith in
      let (low, _) =
        Layout-starts h.base h.offsets q.head first (n - 1) (x ∷ xs) (omega arith) h.layout in
      let low' : h.offsets first ≤ h.offsets (length xs) = rw top at low in
      (low', omega (arith, low'), h.layout.1)

  pub span-width : (n : ℕ) → 0 < n → n ≤ suc (length xs) → span q n ≡ ok (width n)
  unfolding span width
  span-width n pos_ le =
      let (low, total, inside) = width_bounds n pos_ le in
      let c : q.count ≡ suc (length xs) = h.counted in
      let e : q.count - 1 ≡ length xs = omega (arith, c) in
      let first : q.count - n ≡ suc (length xs) - n = omega (arith, c) in
      let same : ((h.offsets (length xs) + size_mod - h.offsets (suc (length xs) - n)) % size_mod
              + length x
              + 1)
            % size_mod
          ≡ width n =
        omega (arith, low, inside, h.within, h.small) in
      rw
        (
          h.has_offsets,
          lt→ltb 0 q.count (omega (arith, c)),
          le→leb n q.count (omega (arith, c)),
          le→leb q.count q.str_count h.slots,
          h.has_base,
          e,
          first,
          load_str-CStr (q.bytes - h.offsets (length xs)) h.base (h.offsets (length xs)) x
              h.layout.0 (omega (arith, h.layout.1, h.within)),
        )
        (ap ok same)

  -- A single item fits an int.
  width-one : width 1 < int_limit
  unfolding width
  width-one =
      let e : suc (length xs) - 1 ≡ length xs = omega arith in rw e (omega (arith, h.short.0))

  -- Backing off from `n` items, at least one and no more than the queue holds, ends within `n`
  -- rounds at an amount from 1 to `n` whose bytes an int counts, and at the bytes of that amount.
  pub shrink_lem :
      (fuel n : ℕ)
      → 0 < n
      → n ≤ fuel
      → n ≤ suc (length xs)
      → (m : ℕ) × (shrink fuel q n (width n) ≡ ok (m, width m))
        × (0 < m)
        × (m ≤ n)
        × (width m < int_limit)
  unfolding shrink
  shrink_lem zero n pos_ le top = absurd (omega arith)
  shrink_lem (suc fuel) n pos_ le top = elim (Bool-cases (ltb int_max (width n))) [
    | inr fits ↦ (n, rw fits, pos_, omega arith, omega (arith, ltb→le int_max (width n) fits))
    | inl big ↦ elim (Bool-cases (ltb 1 n)) [
      | inr one ↦
          let e : n ≡ 1 = omega (arith, ltb→le 1 n one) in
          (n, rw (big, one), pos_, omega arith, rw e width-one)
      | inl more ↦
          let (low, high) = back_off_bounds n (ltb→lt 1 n more) in
          let (m, run, some_, less, fits) =
            shrink_lem fuel (back_off n) low (omega arith) (omega arith) in
          (
            m,
            rw (big, more, span-width (back_off n) low (omega arith), run),
            some_,
            omega arith,
            fits,
          )
    ]
  ]
