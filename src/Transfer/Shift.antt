-- ===== src/Transfer/Shift.antt =====
-- Strings keep their shape when a stretch of the pool is copied elsewhere, their offsets with it.
use libcircle.Prelude.{
  ℕ, zero, suc, ◌+◌, ◌-◌, ◌≤◌, ◌<◌, ◌≡◌, ◌∙◌, List, [], ◌∷◌, arith, length, take, length-take,
}
use libcircle.C.{Mem}
use libcircle.C.Strings.{CStr}
use libcircle.Queue.Rep.{Layout}

-- The `n` bytes from `p` on stand in the other memory from `p'` on.
abbrev pub Copied : Mem → ℕ → Mem → ℕ → ℕ → Type 0
Copied b p b' p' n = (i : ℕ) → i < n → b' (p' + i) ≡ b (p + i)

pub Copied-tail :
    (b : Mem) (p : ℕ) (b' : Mem) (p' n : ℕ)
    → Copied b p b' p' (suc n)
    → Copied b (suc p) b' (suc p') n
Copied-tail b p b' p' n h i lt =
    let e : suc p + i ≡ p + suc i = omega arith in
    let e' : suc p' + i ≡ p' + suc i = omega arith in rw (e, e') (h (suc i) (omega arith))

pub CStr-Copied :
    (b : Mem) (p : ℕ) (b' : Mem) (p' : ℕ) (x : List ℕ)
    → Copied b p b' p' (length x + 1)
    → CStr b p x
    → CStr b' p' x
CStr-Copied b p b' p' [] h c =
    let e : p + 0 ≡ p = omega arith in
    let e' : p' + 0 ≡ p' = omega arith in
    let first : b' p' ≡ b p = rw (e, e') at (h 0 (omega arith)) in first ∙ c
CStr-Copied b p b' p' (y ∷ x) h c =
    let e : p + 0 ≡ p = omega arith in
    let e' : p' + 0 ≡ p' = omega arith in
    let first : b' p' ≡ b p = rw (e, e') at (h 0 (omega arith)) in
    (
      first ∙ c.0,
      c.1,
      CStr-Copied b (suc p) b' (suc p') x
          (Copied-tail b p b' p' (length x + 1) (λ i lt. h i (omega arith))) c.2,
    )

-- The offsets grow with the index: the item at `first` starts no later than the last.
pub Layout-starts :
    (b s : Mem) (limit first m : ℕ) (xs : List (List ℕ))
    → length xs ≡ first + suc m
    → Layout b s limit xs
    → (s first ≤ s (first + m)) × (s (first + m) < limit)
Layout-starts b s limit first m [] e l = absurd (omega arith)
Layout-starts b s limit first zero (x ∷ xs) e l =
    let n : length xs ≡ first = omega arith in
    let n' : first + 0 ≡ first = omega arith in rw n' (omega arith, rw (← n) (omega (arith, l.1)))
Layout-starts b s limit first (suc m) (x ∷ xs) e l =
    let n : length xs ≡ first + suc m = omega arith in
    let below = Layout-starts b s (s (length xs)) first m xs n l.2 in
    rw (← n) (omega (arith, below.0, below.1), omega (arith, l.1))

-- The last `m` strings of a queue, with the pool copied from the start of the first of them to
-- address 0 and the offsets counted from there.
pub Layout-shift :
    (b b' s s' : Mem) (start first m limit : ℕ) (xs : List (List ℕ))
    → length xs ≡ first + m
    → s first ≡ start
    → ((a : ℕ) → start ≤ a → a < limit → b' (a - start) ≡ b a)
    → ((j : ℕ) → j < m → s' j ≡ s (first + j) - start)
    → Layout b s limit xs
    → Layout b' s' (limit - start) (take m xs)
Layout-shift b b' s s' start first zero limit xs e es hb hs l = tt
Layout-shift b b' s s' start first (suc m) limit [] e es hb hs l = absurd (omega arith)
Layout-shift b b' s s' start first (suc m) limit (x ∷ xs) e es hb hs l =
    let n : length xs ≡ first + m = omega arith in
    let n' : length (take m xs) ≡ m = length-take m xs (omega arith) in
    let low : start ≤ s (length xs) =
      rw n (omega (arith, es, (Layout-starts b s limit first m (x ∷ xs) (omega arith) l).0)) in
    let place : s' (length (take m xs)) ≡ s (length xs) - start = rw (n', n) (hs m (omega arith)) in
    let ih =
      Layout-shift b b' s s' start first m (s (length xs)) xs n es
        (λ a lo hi. hb a lo (omega (arith, l.1))) (λ j lt. hs j (omega arith)) l.2 in
    rw place (
      CStr-Copied b (s (length xs)) b' (s (length xs) - start) x
          (λ i lt.
            let at : s (length xs) + i - start ≡ s (length xs) - start + i = omega arith in
            rw (← at) (hb (s (length xs) + i) (omega arith) (omega (arith, l.1))))
          l.0,
      omega (arith, l.1),
      ih,
    )
