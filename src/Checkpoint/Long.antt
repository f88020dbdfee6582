-- ===== src/Checkpoint/Long.antt =====
-- A string of the greatest length that a push accepts does not survive a checkpoint: its line is
-- longer than the buffer of the reader, which gets it in two parts.
use native.Mathlib.Nat.{mod-eq_of_lt}
use libcircle.Prelude.{
  ℕ, suc, ◌+◌, ◌-◌, ◌<◌, ◌≡◌, ◌∙◌, some, List, [], ◌∷◌, ◌++◌, arith, length, take, length-take,
  length-append, All-take, ℤ, pos, lt→ltb,
}
use libcircle.C.{ok, ◌>>=◌, u32_mod, Os}
use libcircle.C.Strings.{NoZero}
use libcircle.Queue.{Queue, max_string_len, push}
use libcircle.Queue.Rep.{Holds, IsShort}
use libcircle.Queue.Push.{push-Holds}
use libcircle.Handle.Stack.{HasRoomFor, HasRoomFor-once, HasRoomFor-push}
use libcircle.Checkpoint.{newline, Fgets, read_line, read_loop, read}
use libcircle.Checkpoint.Save.{lines}
use libcircle.Checkpoint.Restore.{
  NoNewline, FgetsLaws, c_string-NoZero, read_line-push, read_loop-step, read_loop-end,
}

-- A buffer with no newline loses its last byte.
read_line-part :
    (os : Os) (q : Queue) (x : List ℕ)
    → NoZero x
    → 0 < length x
    → length x < u32_mod
    → read_line os q x ≡ (push os q (some (take (length x - 1) x)) >>= λ (q', rc). ok q')
unfolding read_line
read_line-part os q x nz full fits =
    rw (
      c_string-NoZero x nz,
      mod-eq_of_lt {n = length x} {m = u32_mod} fits,
      lt→ltb 0 (length x) full,
    )

-- The two rounds of the reader: the string without its last byte, and the newline alone.
read_loop-cuts :
    (fgets : Fgets)
    → FgetsLaws fgets
    → (os : Os) (fuel : ℕ) (x : List ℕ) (q q1 : Queue) {q2 : Queue} → NoZero x
    → NoNewline x
    → length x + 1 ≡ max_string_len
    → push os q (some (take (length x - 1) x)) ≡ ok (q1, pos 0)
    → push os q1 (some []) ≡ ok (q2, pos 0)
    → read_loop fgets os (suc (suc (suc fuel))) q (x ++ (newline ∷ [])) ≡ ok q2
read_loop-cuts fgets laws os fuel x q q1 {q2} nz nn long e1 e2 =
    let first : read_line os q x ≡ ok q1 =
      rw (read_line-part os q x nz (omega arith) (omega arith), e1) in
    let second : read_line os q1 ([] ++ (newline ∷ [])) ≡ ok q2 =
      rw (read_line-push os q1 [] tt (omega arith), e2) in
    read_loop-step fgets os (suc (suc fuel)) q
      (laws.part max_string_len x (newline ∷ []) nn (omega arith) long) first
    ∙ read_loop-step fgets os (suc fuel) q1 (laws.whole max_string_len [] [] tt (omega arith))
        second
    ∙ read_loop-end fgets os fuel q2 (laws.at_end max_string_len)

-- A string of 4095 bytes, which a push accepts, with no zero and no newline in it, comes back from
-- the file of its checkpoint as its first 4094 bytes under an empty string, for an fgets that obeys
-- its laws and a queue with room.
pub read-cuts :
    (fgets : Fgets)
    → FgetsLaws fgets
    → (os : Os) (closes : ℤ) (x : List ℕ) (s : List (List ℕ)) {q : Queue} → NoZero x
    → NoNewline x
    → length x + 1 ≡ max_string_len
    → Holds q s
    → HasRoomFor os 2 q
    → (q' : Queue) × (read fgets os closes (some q) (some (lines (x ∷ []))) ≡ ok (some q', closes))
      × Holds q' ([] ∷ take (length x - 1) x ∷ s)
unfolding read lines
read-cuts fgets laws os closes x s {q} nz nn long h room =
    let y = take (length x - 1) x in
    let short : IsShort y = omega (arith, length-take (length x - 1) x) in
    let nz' = All-take _ (length x - 1) x nz in
    let (q1, e1, p1) = push-Holds os y h (HasRoomFor-once room) nz' short room.grants in
    let room1 = HasRoomFor-push room h short p1 in
    let (q2, e2, p2) =
      push-Holds os [] p1.holds (HasRoomFor-once room1) tt (omega arith) room.grants in
    let fuel : length (x ++ (newline ∷ [])) ≡ suc (suc (length x - 1)) =
      omega (arith, length-append x (newline ∷ [])) in
    (q2, rw (fuel, read_loop-cuts fgets laws os (length x - 1) x q q1 nz nn long e1 e2), p2.holds)
