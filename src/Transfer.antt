-- ===== src/Transfer.antt =====
-- The sending half of a transfer of work in libcircle/token.c: CIRCLE_send_no_work,
-- CIRCLE_send_work and CIRCLE_send_work_to_many.
pub mod Many
pub mod Shift
pub mod Span
pub mod Packet
pub mod Refusal
pub mod Send
pub mod Blacken
pub mod Dealt
pub mod Keeps
use libcircle.Prelude.{
  ℕ, zero, suc, ◌+◌, ◌-◌, ◌*◌, ◌/◌, ◌%◌, Bool, true, false, ◌&&◌, ◌||◌, not, Option, none, some,
  List, [], ◌∷◌, ltb, leb, ◌==◌, if◌then◌else◌, length, drop, ℤ, pos, negsuc, minus_one,
}
use libcircle.C.{
  Run, ok, fault, aborted, out_of_fuel, ◌>>=◌, ◌>>◌, require, deref, int_limit, u32_mod, size_mod,
  Mem, load_str, Os,
}
use libcircle.Queue.{Queue}
use libcircle.Sends.{Payload}
use libcircle.Spread.{split_sizes}
use libcircle.State.{Tag, Color, TokenState, State, payload_abort, isend}

-- INT32_MAX
abbrev pub int_max : ℕ
int_max = int_limit - 1

-- `(int) x` of a size_t.
abbrev pub to_int : ℕ → ℤ
to_int x = let y = x % u32_mod in if ltb y int_limit then pos y else negsuc (u32_mod - 1 - y)

-- `a - b` on size_t.
abbrev pub sub_size : ℕ → ℕ → ℕ
sub_size a b = (a + size_mod - b) % size_mod

-- The bytes `m[p]` to `m[p + n - 1]`.
unfoldable pub slice : Mem → ℕ → ℕ → List ℕ
slice m p zero = []
slice m p (suc n) = m p ∷ slice m (suc p) n

-- The buffer holds two ints, of which one is sent.
pub send_no_work : Os → (req_size : ℕ) → State → ℕ → Run State
send_no_work os req_size st dest =
    let answer = if st.abort_flag then payload_abort else pos 0 in
    if os.grants 8
    then isend os req_size st dest Tag.work_reply (Payload.ints (answer ∷ []))
        (some (Payload.ints (answer ∷ pos 0 ∷ [])))
    else aborted

-- `if(dest < st->rank || dest == st->token_src) st->token_proc = BLACK;`
unfoldable pub blacken : State → ℕ → State
blacken st dest =
    if ltb dest st.rank || dest == st.token.src
    then record st { token = record (st.token) { proc = Color.black } }
    else st

-- The bytes from the start of the n-th item from the end up to the end of the last item.
pub span : Queue → ℕ → Run ℕ
span q n = do
  strings ← deref q.strings
  require (ltb 0 q.count && leb n q.count && leb q.count q.str_count)
  base ← deref q.base
  let start_offset = strings (q.count - n)
  let end_offset = strings (q.count - 1)
  str ← load_str (q.bytes - end_offset) base end_offset
  ok ((sub_size end_offset start_offset + length str + 1) % size_mod)

-- The next smaller number of items to try.
pub back_off : ℕ → ℕ
back_off n = let next = n - n / 10 in if leb n next then n - 1 else next

-- `while(len > INT32_MAX && count > 1)`
pub shrink : ℕ → Queue → (count len : ℕ) → Run (ℕ × ℕ)
shrink zero q count len = out_of_fuel
shrink (suc fuel) q count len =
    let smaller = (do len' ← span q (back_off count); shrink fuel q (back_off count) len') in
    if ltb int_max len && ltb 1 count then smaller else ok (count, len)

-- `offsets[2 + i]` for the `n` items from `elem` on.
unfoldable pub offsets_from : Mem → (start : ℕ) → (n elem : ℕ) → List ℤ
offsets_from strings start zero elem = []
offsets_from strings start (suc n) elem =
    to_int (sub_size (strings elem) start) ∷ offsets_from strings start n (suc elem)

-- The two messages of a transfer of `count` items in `len` bytes, and the updates after them.
pub send_items : Os → (req_size : ℕ) → Queue → State → ℕ → (count len : ℕ) → Run (Queue × State × ℤ)
send_items os req_size q st dest count len =
    if not (os.grants ((2 + count) * 4) && os.grants len) then aborted else do
      strings ← deref q.strings
      base ← deref q.base
      let start = strings (q.count - count)
      require (leb (start + len) q.bytes)
      let header = pos count ∷ to_int len ∷ offsets_from strings start count (q.count - count)
      let bytes = slice base start len
      st1 ←
          isend os req_size st dest Tag.work_reply (Payload.ints header)
            (some (Payload.ints header))
      st2 ←
          isend os req_size st1 dest Tag.work_reply (Payload.chars bytes)
            (some (Payload.chars bytes))
      ok (
        record q { count = q.count - count },
        record st2 { work_outstanding = st2.work_outstanding + 1 },
        pos 0,
      )

-- In the branch of an item that is too large the source calls CIRCLE_send_no_work without its first
-- argument; the model passes the state.
pub send_work : Os → (req_size : ℕ) → Queue → State → ℕ → (count : ℕ) → Run (Queue × State × ℤ)
send_work os req_size q st dest count =
    if count == 0 then (do st' ← send_no_work os req_size st dest; ok (q, st', pos 0)) else (do
      len ← span q count
      (n, len') ← shrink count q count len
      if ltb int_max len'
          then (do st' ← send_no_work os req_size (blacken st dest) dest; ok (q, st', minus_one))
          else send_items os req_size q (blacken st dest) dest n len')

-- `for(i = 0; i < rcount; i++) CIRCLE_send_work(qp, st, requestors[i], sizes[i + 1]);`
pub send_all :
    Os → (req_size : ℕ) → Queue → State → (requestors sizes : List ℕ) → Run (Queue × State)
send_all os req_size q st [] sizes = ok (q, st)
send_all os req_size q st (r ∷ requestors) [] = fault
send_all os req_size q st (r ∷ requestors) (n ∷ sizes) = do
  (q', st', rc) ← send_work os req_size q st r n
  send_all os req_size q' st' requestors sizes

-- `rand` is what rand_r returns. An empty list of requestors is the call of exit.
pub send_work_to_many :
    Os → (req_size : ℕ) → (equal : Bool) → (rand : ℕ) → Queue → State → List ℕ → Run (Queue × State)
send_work_to_many os req_size equal rand q st requestors =
    if length requestors == 0
    then aborted
    else if os.grants ((length requestors + 1) * 4)
    then (do
      sizes ← split_sizes equal rand (length requestors) q.count
      send_all os req_size q st requestors (drop 1 sizes))
    else aborted
