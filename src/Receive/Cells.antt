-- ===== src/Receive/Cells.antt =====
-- What the arrays of the receiver hold after a message: ints, characters and offsets.
use libcircle.Prelude.{
  ℕ, zero, suc, ◌+◌, ◌≤◌, ◌<◌, ◌≡◌, refl, ◌∙◌, ap, List, [], ◌∷◌, arith, length, ℤ, ltb, Bool-cases,
  inl, inr,
}
use libcircle.C.{Mem, store, int_limit}
use libcircle.Queue.Rep.{Layout}
use libcircle.Transfer.{to_int, sub_size, slice, offsets_from}
use libcircle.Transfer.Shift.{Layout-starts}
use libcircle.Receive.{to_size, store_ints, store_bytes, copy_offsets}

-- The received characters stand where they were written.
pub store_bytes-slice :
    (m b : Mem) (p q n i : ℕ) → i < n → store_bytes m p (slice b q n) (p + i) ≡ b (q + i)
unfolding store_bytes slice
store_bytes-slice m b p q zero i lt = absurd (omega arith)
store_bytes-slice m b p q (suc n) zero lt =
    let e : p + 0 ≡ p = omega arith in let e' : q + 0 ≡ q = omega arith in rw (e, e') (ground arith)
store_bytes-slice m b p q (suc n) (suc i) lt =
    let e : p + suc i ≡ suc p + i = omega arith in
    let e' : q + suc i ≡ suc q + i = omega arith in
    rw (e, e') (ground (arith, store_bytes-slice m b (suc p) (suc q) n i))

pub length-offsets_from : (s : Mem) (start n elem : ℕ) → length (offsets_from s start n elem) ≡ n
unfolding offsets_from
length-offsets_from s start zero elem = refl
length-offsets_from s start (suc n) elem = ap suc (length-offsets_from s start n (suc elem))

pub store_ints-offsets_from :
    (m : ℕ → ℤ) (s : Mem) (start n elem j : ℕ)
    → j < n
    → store_ints m (offsets_from s start n elem) j ≡ to_int (sub_size (s (elem + j)) start)
unfolding store_ints offsets_from
store_ints-offsets_from m s start zero elem j lt = absurd (omega arith)
store_ints-offsets_from m s start (suc n) elem zero lt =
    let e : elem + 0 ≡ elem = omega arith in rw e
store_ints-offsets_from m s start (suc n) elem (suc j) lt =
    let e : elem + suc j ≡ suc elem + j = omega arith in
    rw e (store_ints-offsets_from (λ b. m (suc b)) s start n (suc elem) j (omega arith))

copy_offsets-below :
    (cells : ℕ → ℤ) (n i : ℕ) (s : Mem) (j : ℕ) → j < i → copy_offsets cells n i s j ≡ s j
unfolding copy_offsets
copy_offsets-below cells zero i s j lt = refl
copy_offsets-below cells (suc n) i s j lt =
    copy_offsets-below cells n (suc i) (store s i (to_size (cells (i + 2)))) j (omega arith)
    ∙ ground arith

-- Each offset is copied from its cell.
pub copy_offsets-at :
    (cells : ℕ → ℤ) (n i : ℕ) (s : Mem) (j : ℕ)
    → i ≤ j
    → j < i + n
    → copy_offsets cells n i s j ≡ to_size (cells (j + 2))
unfolding copy_offsets
copy_offsets-at cells zero i s j le lt = absurd (omega arith)
copy_offsets-at cells (suc n) i s j le lt =
    let s' = store s i (to_size (cells (i + 2))) in
    elim (Bool-cases (ltb i j)) [
      | inl later ↦ copy_offsets-at cells n (suc i) s' j (ground arith) (omega arith)
      | inr here ↦
          let e : j ≡ i = ground arith in
          rw e (copy_offsets-below cells n (suc i) s' i (omega arith) ∙ ground arith)
    ]

pub to_size-to_int : (x : ℕ) → x < int_limit → to_size (to_int x) ≡ x
to_size-to_int x lt = ground arith

-- Every offset of the strings from `first` on lies between that of the first and the limit.
pub Layout-range :
    (b s : Mem) (limit first m : ℕ) (xs : List (List ℕ)) (j : ℕ)
    → length xs ≡ first + m
    → j < m
    → Layout b s limit xs
    → (s first ≤ s (first + j)) × (s (first + j) < limit)
Layout-range b s limit first zero xs j e lt l = absurd (omega arith)
Layout-range b s limit first (suc m) [] j e lt l = absurd (omega arith)
Layout-range b s limit first (suc m) (x ∷ xs) j e lt l = elim (Bool-cases (ltb j m)) [
  | inl below ↦
      let r = Layout-range b s (s (length xs)) first m xs j (omega arith) (ground arith) l.2 in
      (r.0, omega (arith, r.1, l.1))
  | inr top ↦
      let e' : j ≡ m = ground arith in
      rw e' (Layout-starts b s limit first m (x ∷ xs) (omega arith) l)
]
