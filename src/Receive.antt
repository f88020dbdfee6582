-- ===== src/Receive.antt =====
-- The receiving half of a transfer of work in libcircle/token.c: CIRCLE_extend_offsets and
-- CIRCLE_work_receive. The two messages that MPI_Recv returns are parameters.
pub mod Cells
pub mod Keeps
pub mod Deliver
pub mod Accept
use libcircle.Prelude.{
  ℕ, zero, suc, ◌+◌, ◌-◌, ◌*◌, ◌%◌, Bool, true, false, ◌&&◌, ◌||◌, not, Option, none, some, List,
  [], ◌∷◌, ltb, leb, ◌==◌, if◌then◌else◌, is_none, length, ℤ, pos, negsuc, is_neg, minus_one,
}
use libcircle.C.{
  Run, ok, fault, aborted, ◌>>=◌, ◌>>◌, require, deref, u32_mod, size_mod, Mem, store, load_str, Os,
}
use libcircle.Queue.{Queue, grow_int, extend, str_extend}
use libcircle.Sends.{Payload}
use libcircle.State.{Tag, Offsets, State, payload_abort, isend}

-- `(uintptr_t) x` of an int.
abbrev pub to_size : ℤ → ℕ
to_size (pos n) = n % size_mod
to_size (negsuc n) = size_mod - 1 - n

-- The cells that `realloc` leaves of an array of `old` ints.
abbrev pub kept_ints : Os → Option (ℕ → ℤ) → (old : ℕ) → ℕ → ℤ
kept_ints os none old a = pos (os.junk a)
kept_ints os (some cells) old a = if ltb a old then cells a else pos (os.junk a)

-- `realloc` of the array of received ints, to `n` ints.
abbrev pub realloc_ints : Os → Option (ℕ → ℤ) → (old n : ℕ) → Option (ℕ → ℤ)
realloc_ints os cells old n = if os.grants (n * 4) then some (kept_ints os cells old) else none

-- The new length is recorded before the test of the new array.
pub extend_offsets : Os → State → (size : ℕ) → Run (State × ℤ)
extend_offsets os st size = if leb size st.offsets.count then ok (st, pos 0) else do
  count ← grow_int (suc size) st.offsets.count size
  let buf = realloc_ints os st.offsets.recv_buf st.offsets.count count
  let rc = if is_none buf then minus_one else pos 0
  ok (record st { offsets = record { count = count; recv_buf = buf } }, rc)

-- The received ints take the first cells of the array.
pub store_ints : (ℕ → ℤ) → List ℤ → ℕ → ℤ
store_ints m [] a = m a
store_ints m (x ∷ xs) zero = x
store_ints m (x ∷ xs) (suc a) = store_ints (λ b. m (suc b)) xs a

-- The received characters are written from `p` on.
pub store_bytes : Mem → ℕ → List ℕ → Mem
store_bytes m p [] = m
store_bytes m p (c ∷ s) = store (store_bytes m (suc p) s) p c

-- `qp->strings[i] = offsets_recv_buf[i + 2]` for `n` rounds from `i` on.
pub copy_offsets : (ℕ → ℤ) → (n i : ℕ) → Mem → Mem
copy_offsets cells zero i strings = strings
copy_offsets cells (suc n) i strings =
    copy_offsets cells n (suc i) (store strings i (to_size (cells (i + 2))))

-- The checks and the growth of the pool before the characters are received.
pub reserve_pool : Os → Queue → ℕ → Run Queue
reserve_pool os q new_bytes =
    if ltb q.bytes new_bytes
    then (do (q', rc) ← extend os q new_bytes; if is_neg rc then aborted else ok q')
    else ok q

pub reserve_slots : Os → Queue → ℕ → Run Queue
reserve_slots os q count =
    if ltb q.str_count count
    then (do (q', rc) ← str_extend os q count; if is_neg rc then aborted else ok q')
    else ok q

-- What follows the header of a message with `count` items: the characters are received into the
-- pool, the offsets are copied, and `count` and `head` are set.
pub receive_items : Os → Queue → Offsets → (count : ℕ) → (chars : List ℕ) → Run Queue
receive_items os q offsets count chars = do
  cells ← deref offsets.recv_buf
  require (ltb 1 offsets.count)
  q1 ← reserve_pool os q ((q.head + to_size (cells 1)) % size_mod)
  base ← deref q1.base
  require (leb (length chars) q1.bytes)
  let pool = store_bytes base 0 chars
  q2 ← reserve_slots os q1 count
  strings ← deref q2.strings
  require (leb (count + 2) offsets.count && leb count q2.str_count)
  let strings' = copy_offsets cells count 0 strings
  if not (strings' 0 == 0) then aborted else do
    let elem_offset = strings' (count - 1)
    elem ← load_str (q2.bytes - elem_offset) pool elem_offset
    ok (record q2 {
      base = some pool;
      strings = some strings';
      count = count;
      head = (elem_offset + length elem + 1) % size_mod;
    })

-- The header decides: no work, the signal to abort, an unexpected number, or items.
pub receive_header :
    Os
    → (req_size : ℕ) → Queue
    → State
    → (source : ℕ) → ℤ
    → (chars : List ℕ) → Run (Queue × State × ℤ)
receive_header os req_size q st source (pos zero) chars =
    ok (q, record st { local_no_work_received = (st.local_no_work_received + 1) % u32_mod }, pos 0)
receive_header os req_size q st source (pos (suc n)) chars = do
  q' ← receive_items os q st.offsets (suc n) chars
  st' ← isend os req_size st source Tag.work_receipt Payload.empty none
  ok (q', st', pos 0)
receive_header os req_size q st source (negsuc n) chars =
    if n == 31
    then ok (q, record st { abort_flag = true }, payload_abort)
    else ok (q, st, minus_one)

-- `ints` is the first message, whose length is `size`; `chars` is the message that follows where
-- there is one.
pub work_receive :
    Os
    → (req_size : ℕ) → Queue
    → State
    → (source : ℕ) → (ints : List ℤ) → (chars : List ℕ) → Run (Queue × State × ℤ)
work_receive os req_size q st source ints chars = if length ints == 0 then aborted else do
  (st1, rc) ← extend_offsets os st (length ints)
  if is_neg rc then aborted else do
    cells ← deref st1.offsets.recv_buf
    let filled = store_ints cells ints
    let st2 = record st1 { offsets = record { count = st1.offsets.count; recv_buf = some filled } }
    receive_header os req_size q st2 source (filled 0) chars
