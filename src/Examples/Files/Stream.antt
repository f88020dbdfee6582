-- ===== src/Examples/Files/Stream.antt =====
-- A stream whose fgets is a function, and which obeys the laws that the reader relies on.
use libcircle.Prelude.{
  ◌≡◌, ◌-◌, ◌+◌, ◌≤◌, ◌<◌, refl, ap, ℕ, zero, suc, none, some, List, [], ◌∷◌, ◌++◌, arith, length,
  ◌==◌, if◌then◌else◌,
}
use libcircle.Checkpoint.{newline, Fgets}
use libcircle.Checkpoint.Restore.{NoNewline, FgetsLaws}

-- At most `n` bytes, up to and with the first newline, and the rest.
next_line : ℕ → List ℕ → List ℕ × List ℕ
next_line zero s = ([], s)
next_line (suc n) [] = ([], [])
next_line (suc n) (c ∷ s) =
    let (a, b) = next_line n s in if c == newline then (c ∷ [], s) else (c ∷ a, b)

pub fgets : Fgets
fgets n [] = none
fgets n (c ∷ s) = some (next_line (n - 1) (c ∷ s))

next_line-whole :
    (n : ℕ) (s rest : List ℕ)
    → NoNewline s
    → length s + 1 ≤ n
    → next_line n (s ++ (newline ∷ rest)) ≡ (s ++ (newline ∷ []), rest)
unfolding next_line
next_line-whole zero s rest h le = absurd (omega arith)
next_line-whole (suc n) [] rest h le = refl
next_line-whole (suc n) (c ∷ s) rest h le =
    ground (arith, next_line-whole n s rest h.1 (omega arith))

next_line-part :
    (n : ℕ) (s rest : List ℕ) → NoNewline s → length s ≡ n → next_line n (s ++ rest) ≡ (s, rest)
unfolding next_line
next_line-part zero [] rest h e = refl
next_line-part zero (c ∷ s) rest h e = absurd (omega arith)
next_line-part (suc n) [] rest h e = absurd (omega arith)
next_line-part (suc n) (c ∷ s) rest h e = ground (arith, next_line-part n s rest h.1 (omega arith))

fgets-whole :
    (n : ℕ) (s rest : List ℕ)
    → NoNewline s
    → length s + 2 ≤ n
    → fgets n (s ++ (newline ∷ rest)) ≡ some (s ++ (newline ∷ []), rest)
unfolding fgets
fgets-whole n [] rest h le = ap some (next_line-whole (n - 1) [] rest h (omega arith))
fgets-whole n (c ∷ s) rest h le = ap some (next_line-whole (n - 1) (c ∷ s) rest h (omega arith))

fgets-part :
    (n : ℕ) (s rest : List ℕ)
    → NoNewline s
    → 0 < length s
    → length s + 1 ≡ n
    → fgets n (s ++ rest) ≡ some (s, rest)
unfolding fgets
fgets-part n [] rest h some_ e = absurd (omega arith)
fgets-part n (c ∷ s) rest h some_ e = ap some (next_line-part (n - 1) (c ∷ s) rest h (omega arith))

pub fgets-FgetsLaws : FgetsLaws fgets
unfolding fgets
fgets-FgetsLaws = record { at_end = λ n. refl; whole = fgets-whole; part = fgets-part }
