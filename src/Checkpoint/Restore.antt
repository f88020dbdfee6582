-- ===== src/Checkpoint/Restore.antt =====
-- The reader gives back the strings of a checkpoint, and so in reverse order of the queue that was
-- saved. What it relies on of fgets is `FgetsLaws`.
use native.Mathlib.Nat.{mod-eq_of_lt}
use libcircle.Prelude.{
  ℕ, zero, suc, ◌+◌, ◌-◌, ◌≤◌, ◌<◌, ◌≡◌, ◌≢◌, refl, ◌∙◌, ap, true, none, some, List, [], ◌∷◌, ◌++◌,
  arith, length, take, length-append, All, ℤ, pos, lt→ltb,
}
use mathlib.Core.List.{reverse, reverse_aux}
use libcircle.C.{ok, ◌>>=◌, u32_mod, Os}
use libcircle.C.Strings.{NoZero}
use libcircle.Queue.{Queue, max_string_len, push}
use libcircle.Queue.Rep.{Holds}
use libcircle.Queue.Push.{push-Holds}
use libcircle.Handle.Stack.{HasRoomFor, HasRoomFor-once, HasRoomFor-push}
use libcircle.Checkpoint.{newline, Fgets, c_string, read_line, read_loop, read, Disk, write}
use libcircle.Checkpoint.Save.{lines, write-lines}

abbrev pub NoNewline : List ℕ → Type 0
NoNewline = All (λ c. c ≢ newline)

-- The C standard on fgets: it reads up to and with the first newline, at most n - 1 bytes, and
-- returns NULL at the end of the file.
pub record FgetsLaws (fgets : Fgets) : Type 0 where
  pub at_end : (n : ℕ) → fgets n [] ≡ none
  pub whole :
      (n : ℕ) (s rest : List ℕ)
      → NoNewline s
      → length s + 2 ≤ n
      → fgets n (s ++ (newline ∷ rest)) ≡ some (s ++ (newline ∷ []), rest)
  pub part :
      (n : ℕ) (s rest : List ℕ)
      → NoNewline s
      → 0 < length s
      → length s + 1 ≡ n
      → fgets n (s ++ rest) ≡ some (s, rest)

-- A string that a checkpoint keeps: one line, that the reader's buffer holds with its newline.
pub record IsLine (x : List ℕ) : Type 0 where
  pub no_zero : NoZero x
  pub no_newline : NoNewline x
  pub fits : length x + 2 ≤ max_string_len

pub c_string-NoZero : (s : List ℕ) → NoZero s → c_string s ≡ s
unfolding c_string
c_string-NoZero [] h = refl
c_string-NoZero (c ∷ s) h = ground (arith, c_string-NoZero s h.1)

pub take-append_last : (s : List ℕ) (c : ℕ) → take (length s) (s ++ (c ∷ [])) ≡ s
take-append_last [] c = refl
take-append_last (x ∷ s) c = ap (λ r. x ∷ r) (take-append_last s c)

NoZero-newline : (s : List ℕ) → NoZero s → NoZero (s ++ (newline ∷ []))
NoZero-newline [] h = (ground arith, tt)
NoZero-newline (c ∷ s) h = (h.0, NoZero-newline s h.1)

-- A buffer with a whole line is pushed without its newline.
pub read_line-push :
    (os : Os) (q : Queue) (x : List ℕ)
    → NoZero x
    → length x + 1 < u32_mod
    → read_line os q (x ++ (newline ∷ [])) ≡ (push os q (some x) >>= λ (q', rc). ok q')
unfolding read_line
read_line-push os q x nz fits =
    let n : length (x ++ (newline ∷ [])) ≡ length x + 1 =
      omega (arith, length-append x (newline ∷ [])) in
    let cut : length x + 1 - 1 ≡ length x = omega arith in
    rw (
      c_string-NoZero _ (NoZero-newline x nz),
      n,
      mod-eq_of_lt {n = length x + 1} {m = u32_mod} fits,
      lt→ltb 0 (length x + 1) (omega arith),
      cut,
      take-append_last x newline,
    )

length-le-lines : (items : List (List ℕ)) → length items ≤ length (lines items)
unfolding lines
length-le-lines [] = omega arith
length-le-lines (x ∷ items) =
    omega (arith, length-le-lines items, length-append x (newline ∷ lines items))

-- One round of the reader, and its end.
module _ (fgets : Fgets) (os : Os) where
  pub read_loop-step :
      (fuel : ℕ) (q : Queue) {q' : Queue} {stream buffer rest : List ℕ}
      → fgets max_string_len stream ≡ some (buffer, rest)
      → read_line os q buffer ≡ ok q'
      → read_loop fgets os (suc fuel) q stream ≡ read_loop fgets os fuel q' rest
  unfolding read_loop
  read_loop-step fuel q e e' = rw (e, e', read_loop)

  pub read_loop-end :
      (fuel : ℕ) (q : Queue) {stream : List ℕ}
      → fgets max_string_len stream ≡ none
      → read_loop fgets os (suc fuel) q stream ≡ ok q
  unfolding read_loop
  read_loop-end fuel q e = rw (e, read_loop)

module _ (fgets : Fgets) (laws : FgetsLaws fgets) (os : Os) where
  read_loop-lines :
      (fuel : ℕ) (items s : List (List ℕ)) {q : Queue}
      → All IsLine items
      → Holds q s
      → HasRoomFor os (length items) q
      → length items < fuel
      → (q' : Queue) × (read_loop fgets os fuel q (lines items) ≡ ok q')
        × Holds q' (reverse_aux items s)
  unfolding lines
  read_loop-lines zero items s a h room lt = absurd (omega arith)
  read_loop-lines (suc fuel) [] s {q} a h room lt =
      (q, read_loop-end fgets os fuel q (laws.at_end max_string_len), h)
  read_loop-lines (suc fuel) (x ∷ items) s {q} a h room lt =
      let l = a.0 in
      let got = laws.whole max_string_len x (lines items) l.no_newline l.fits in
      let (q1, e, p) =
        push-Holds os x h (HasRoomFor-once room) l.no_zero (omega (arith, l.fits)) room.grants in
      let more = HasRoomFor-push room h (omega (arith, l.fits)) p in
      let (q2, e', h') = read_loop-lines fuel items (x ∷ s) a.1 p.holds more (omega arith) in
      let line : read_line os q (x ++ (newline ∷ [])) ≡ ok q1 =
        rw (read_line-push os q x l.no_zero (omega (arith, l.fits)), e) in
      (q2, read_loop-step fgets os fuel q got line ∙ e', h')

  -- Where fgets obeys its laws and the queue has room, reading the file of some strings without
  -- zeros and newlines, that fit the buffer, returns the result of fclose, which is 0 where the file could be closed, and puts them on the
  -- queue one after the other.
  pub read-lines :
      (closes : ℤ) (items s : List (List ℕ)) {q : Queue}
      → All IsLine items
      → Holds q s
      → HasRoomFor os (length items) q
      → (q' : Queue) × (read fgets os closes (some q) (some (lines items)) ≡ ok (some q', closes))
        × Holds q' (reverse_aux items s)
  unfolding read
  read-lines closes items s a h room =
      let (q', e, h') =
        read_loop-lines (suc (length (lines items))) items s a h room
          (omega (arith, length-le-lines items)) in
      (q', rw e, h')

  -- What a checkpoint saves, a restart brings back in reverse order: where the file opens, every
  -- line is written, fgets obeys its laws, the strings have no zeros and no newlines and fit the
  -- buffer, the writer empties a queue that holds at least one string and returns the result of
  -- fclose, and the reader of those lines, where fclose returns 0, returns 0 and fills an empty queue with room.
  pub restart :
      (disk : Disk) (x : List ℕ) (items : List (List ℕ)) {q q0 : Queue}
      → disk.opens ≡ true
      → ((k : ℕ) → disk.prints k ≡ true)
      → Holds q (x ∷ items)
      → All IsLine (x ∷ items)
      → Holds q0 []
      → HasRoomFor os (length (x ∷ items)) q0
      → (file : List ℕ) × (q1 : Queue) × (q2 : Queue) × (write disk q
          ≡ ok (q1, disk.closes, some file))
        × Holds q1 []
        × (read fgets os (pos 0) (some q0) (some file) ≡ ok (some q2, pos 0))
        × Holds q2 (reverse (x ∷ items))
  restart disk x items {q} {q0} o p h a h0 room =
      let (q1, w, e1) = write-lines disk x items o p h in
      let (q2, r, e2) = read-lines (pos 0) (x ∷ items) [] a h0 room in
      (lines (x ∷ items), q1, q2, w, e1, r, e2)
