-- ===== src/Checkpoint.antt =====
-- The checkpoint files of libcircle/queue.c, one string to a line: CIRCLE_internal_queue_write and
-- CIRCLE_internal_queue_read, with their wrappers in libcircle/worker.c and libcircle/lib.c.
-- A file is the list of its bytes. What fopen, fprintf, fgets and fclose answer is a parameter.
pub mod Save
pub mod Restore
pub mod Long
use libcircle.Prelude.{
  ℕ, zero, suc, ◌+◌, ◌-◌, ◌%◌, Bool, true, false, Option, none, some, List, [], ◌∷◌, ◌++◌, ltb,
  ◌==◌, if◌then◌else◌, length, take, ℤ, pos, is_neg, minus_one,
}
use libcircle.C.{Run, ok, out_of_fuel, ◌>>=◌, deref, u32_mod, Os}
use libcircle.Queue.{Queue, max_string_len, push, pop}

-- What the operating system answers to a writer: whether the file opens, whether the i-th fprintf
-- succeeds, and the result of fclose as an int8_t.
pub record Disk : Type 0 where
  pub opens : Bool
  pub prints : ℕ → Bool
  pub closes : ℤ

abbrev pub newline : ℕ
newline = b'\n'

-- `while(qp->count > 0)` of the writer, from the i-th line on. The Boolean says that the loop came
-- to its end; an early return of -1 leaves the file as written so far.
pub write_loop : Disk → ℕ → ℕ → Queue → List ℕ → Run (Queue × Bool × List ℕ)
write_loop disk zero i q file = out_of_fuel
write_loop disk (suc fuel) i q file =
    let more = (do
      (q', rc, out) ← pop q true
      let line = deref out >>= λ str.
          let rest = write_loop disk fuel (i + 1) q' (file ++ (str ++ newline ∷ [])) in
          if disk.prints i then rest else ok (q', false, file)
      if is_neg rc then ok (q', false, file) else line) in
    if ltb 0 q.count then more else ok (q, true, file)

-- The file is `none` where it is not opened: an empty queue leaves an older file alone.
pub write : Disk → Queue → Run (Queue × ℤ × Option (List ℕ))
write disk q =
    if q.count == 0
    then ok (q, pos 0, none)
    else if disk.opens
    then (do
      (q', done, file) ← write_loop disk (suc q.count) 0 q []
      ok (q', if done then disk.closes else minus_one, some file))
    else ok (q, minus_one, none)

-- `fgets(str, n, f)` on what is left of a stream: the bytes it stored before the zero that it adds,
-- and the rest of the stream; `none` is NULL.
abbrev pub Fgets : Type 0
Fgets = ℕ → List ℕ → Option (List ℕ × List ℕ)

-- The string that a buffer holds: its bytes before the first zero.
pub c_string : List ℕ → List ℕ
c_string [] = []
c_string (c ∷ s) = if c == 0 then [] else c ∷ c_string s

-- The body of the reader's loop for one buffer: the last byte of the string is overwritten by zero,
-- and what is left is pushed. A failed push is only logged.
pub read_line : Os → Queue → List ℕ → Run Queue
read_line os q buffer =
    let str = c_string buffer in
    let len = length str % u32_mod in
    let pushed = push os q (some (take (len - 1) str)) >>= λ (q', rc). ok q' in
    if ltb 0 len then pushed else ok q

pub read_loop : Fgets → Os → ℕ → Queue → List ℕ → Run Queue
read_loop fgets os zero q stream = out_of_fuel
read_loop fgets os (suc fuel) q stream = elim (fgets max_string_len stream) [
  | none ↦ ok q
  | some (buffer, rest) ↦ read_line os q buffer >>= λ q'. read_loop fgets os fuel q' rest
]

-- `file` is what fopen finds, `closes` the result of fclose as an int8_t.
pub read : Fgets → Os → (closes : ℤ) → Option Queue → Option (List ℕ) → Run (Option Queue × ℤ)
read fgets os closes none file = ok (none, minus_one)
read fgets os closes (some q) none = ok (some q, minus_one)
read fgets os closes (some q) (some stream) = do
  q' ← read_loop fgets os (suc (length stream)) q stream
  ok (some q', closes)

-- `_CIRCLE_checkpoint` and `_CIRCLE_read_restarts`, for the file of this rank.
pub checkpoint : Disk → Queue → Run (Queue × ℤ × Option (List ℕ))
checkpoint disk q = write disk q

pub read_restarts : Fgets → Os → (closes : ℤ) → Queue → Option (List ℕ) → Run (Option Queue × ℤ)
read_restarts fgets os closes q file = read fgets os closes (some q) file
