-- ===== src/Prelude/Int.antt =====
-- Signed results: `pos n` is n and `negsuc n` is -(n + 1).
use Prim.Native.Nat.{ℕ}
use mathlib.Core.Bool.{Bool, true, false}

pub data ℤ : Type 0 where
  pos : ℕ → ℤ
  negsuc : ℕ → ℤ

-- The code's test `rc < 0`.
abbrev pub is_neg : ℤ → Bool
is_neg (pos n) = false
is_neg (negsuc n) = true

abbrev pub minus_one : ℤ
minus_one = negsuc 0
