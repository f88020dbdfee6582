-- ===== src/C/Strings.antt =====
-- C strings in memory: where one stands, that it is read back, and what a write leaves alone.
use libcircle.Prelude.{
  ℕ, zero, suc, ◌+◌, ◌≤◌, ◌<◌, ◌≡◌, ◌≢◌, ◌∙◌, List, [], ◌∷◌, All, arith, length,
}
use libcircle.C.{ok, Mem, store_str, load_str}

-- No byte of the string is the terminating zero.
abbrev pub NoZero : List ℕ → Type 0
NoZero = All (λ c. c ≢ 0)

-- The bytes of `s` and a terminating zero stand at `p`.
abbrev pub CStr : Mem → ℕ → List ℕ → Type 0
CStr m p [] = m p ≡ 0
CStr m p (c ∷ s) = (m p ≡ c) × (c ≢ 0) × CStr m (suc p) s

-- The two memories agree on the addresses from `lo` up to, not including, `hi`.
abbrev pub Agree : Mem → Mem → ℕ → ℕ → Type 0
Agree m m' lo hi = (a : ℕ) → lo ≤ a → a < hi → m' a ≡ m a

pub CStr-NoZero : (m : Mem) (p : ℕ) (s : List ℕ) → CStr m p s → NoZero s
CStr-NoZero m p [] h = tt
CStr-NoZero m p (c ∷ s) h = (h.1, CStr-NoZero m (suc p) s h.2)

pub CStr-Agree :
    (m m' : Mem) (p : ℕ) (s : List ℕ) → CStr m p s → Agree m m' p (p + length s + 1) → CStr m' p s
CStr-Agree m m' p [] h same = same p (omega arith) (omega arith) ∙ h
CStr-Agree m m' p (c ∷ s) h same = (
  same p (omega arith) (omega arith) ∙ h.0,
  h.1,
  CStr-Agree m m' (suc p) s h.2 (λ a lo hi. same a (omega arith) (omega arith)),
)

pub load_str-CStr :
    (room : ℕ) (m : Mem) (p : ℕ) (s : List ℕ)
    → CStr m p s
    → length s < room
    → load_str room m p ≡ ok s
unfolding load_str
load_str-CStr zero m p s h lt = absurd (omega arith)
load_str-CStr (suc room) m p [] h lt = rw h
load_str-CStr (suc room) m p (c ∷ s) h lt =
    ground (arith, load_str-CStr room m (suc p) s h.2 (omega arith))

-- A write of a string touches the bytes of the string and its zero.
pub store_str-Agree_below : (m : Mem) (p : ℕ) (s : List ℕ) (a : ℕ) → a < p → store_str m p s a ≡ m a
unfolding store_str
store_str-Agree_below m p [] a lt = ground arith
store_str-Agree_below m p (c ∷ s) a lt = ground (arith, store_str-Agree_below m (suc p) s a)

pub store_str-CStr : (m : Mem) (p : ℕ) (s : List ℕ) → NoZero s → CStr (store_str m p s) p s
unfolding store_str
store_str-CStr m p [] h = ground arith
store_str-CStr m p (c ∷ s) h = (
  ground arith,
  h.0,
  CStr-Agree (store_str m (suc p) s) _ (suc p) s (store_str-CStr m (suc p) s h.1)
      (λ a lo hi. ground arith),
)
