-- ===== src/Queue/Rep.antt =====
-- What a queue stands for: its strings, the last one pushed first.
use libcircle.Prelude.{
  ℕ, ◌+◌, ◌*◌, ◌%◌, ◌≤◌, ◌<◌, ◌≡◌, false, ◌⊎◌, none, none, some, List, [], ◌∷◌, arith, length, All,
}
use libcircle.C.{Mem, int_limit, size_mod, Os}
use libcircle.C.Strings.{CStr, CStr-Agree, Agree}
use libcircle.Queue.{Queue, max_string_len}

-- The strings in order, the last one first: each lies below `limit`, and the rest below its start.
-- There may be gaps between them.
abbrev pub Layout : Mem → Mem → ℕ → List (List ℕ) → Type 0
Layout base offsets limit [] = Unit
Layout base offsets limit (x ∷ xs) =
    CStr base (offsets (length xs)) x
    × (offsets (length xs) + length x + 1 ≤ limit)
    × Layout base offsets (offsets (length xs)) xs

abbrev pub IsShort : List ℕ → Type 0
IsShort x = length x < max_string_len

-- The representation invariant, with the strings that the queue holds.
pub record Holds (q : Queue) (items : List (List ℕ)) : Type 0 where
  pub base : Mem
  pub offsets : Mem
  pub has_base : q.base ≡ some base
  pub has_offsets : q.strings ≡ some offsets
  pub counted : q.count ≡ length items
  pub slots : q.count ≤ q.str_count
  pub few : q.str_count < int_limit
  pub within : q.head ≤ q.bytes
  pub small : q.bytes < size_mod
  pub layout : Layout base offsets q.head items
  pub short : All IsShort items

pub Layout-mono :
    (b s : Mem) (m n : ℕ) (xs : List (List ℕ)) → m ≤ n → Layout b s m xs → Layout b s n xs
Layout-mono b s m n [] h l = tt
Layout-mono b s m n (x ∷ xs) h l = (l.0, omega arith, l.2)

-- A queue keeps its strings when the bytes below `limit` and the offsets in use are kept.
pub Layout-frame :
    (b b' s s' : Mem) (limit : ℕ) (xs : List (List ℕ))
    → Agree b b' 0 limit
    → Agree s s' 0 (length xs)
    → Layout b s limit xs
    → Layout b' s' limit xs
Layout-frame b b' s s' limit [] hb hs l = tt
Layout-frame b b' s s' limit (x ∷ xs) hb hs l =
    let e : s' (length xs) ≡ s (length xs) = hs (length xs) (omega arith) (omega arith) in
    rw e (
      CStr-Agree b b' (s (length xs)) x l.0 (λ a lo hi. hb a (omega arith) (omega arith)),
      l.1,
      Layout-frame b b' s s' (s (length xs)) xs (λ a lo hi. hb a lo (omega arith))
          (λ a lo hi. hs a lo (omega arith)) l.2,
    )

-- The environment of a push: the pool and the array can grow once more within their widths.
pub record HasRoom (os : Os) (q : Queue) : Type 0 where
  pub step_pos : 0 < os.page_size * 4096 % size_mod
  pub strings_room : q.count + 4097 ≤ int_limit
  pub bytes_room : q.head + max_string_len + os.page_size * 4096 % size_mod ≤ size_mod

-- A refused request for memory has left the queue without its pool or without its offsets.
pub record IsBroken (os : Os) (q : Queue) : Type 0 where
  pub request : ℕ
  pub refused : os.grants request ≡ false
  pub lost : (q.base ≡ none) ⊎ (q.strings ≡ none)
