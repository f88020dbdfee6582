-- ===== src/Queue.antt =====
-- The functions of libcircle/queue.c on the queue itself: a pool of bytes that holds the strings,
-- and an array of the offsets at which they start. Checkpoint files are in Checkpoint.
-- A function that changes `*qp` returns the new queue beside its result. Log calls are left out.
pub mod Grow
pub mod Rep
pub mod Init
pub mod Extend
pub mod Push
pub mod Pop
use libcircle.Prelude.{
  ℕ, zero, suc, ◌+◌, ◌-◌, ◌*◌, ◌%◌, Bool, true, false, ◌&&◌, ◌||◌, not, Option, none, some, List,
  [], ◌∷◌, ltb, leb, if◌then◌else◌, is_none, length, ℤ, pos, is_neg, minus_one,
}
use libcircle.C.{
  Run, ok, fault, out_of_fuel, ◌>>=◌, ◌>>◌, require, deref, int_limit, u32_mod, size_mod, Mem,
  store, store_str, load_str, Os, malloc, realloc,
}

-- `CIRCLE_internal_queue_t`. A NULL pointer is `none`. `strings` counts in cells of 8 bytes.
pub record Queue : Type 0 where
  pub base : Option Mem
  pub bytes : ℕ
  pub head : ℕ
  pub strings : Option Mem
  pub str_count : ℕ
  pub count : ℕ

-- CIRCLE_INITIAL_INTERNAL_QUEUE_SIZE
abbrev pub initial_size : ℕ
initial_size = 4096

-- CIRCLE_MAX_STRING_LEN, where PATH_MAX is 4096 or not defined.
abbrev pub max_string_len : ℕ
max_string_len = 4096

-- sizeof(uintptr_t), and sizeof(CIRCLE_internal_queue_t)
abbrev pub ptr_size : ℕ
ptr_size = 8

abbrev pub struct_size : ℕ
struct_size = 48

-- The fields are written before the pointer from the first `malloc` is tested.
pub init : Os → Run (Option Queue)
init os =
    let base = malloc os (max_string_len * initial_size) in
    let strings = malloc os (ptr_size * initial_size) in
    let q : Queue = record {
      base = base;
      bytes = max_string_len * initial_size;
      head = 0;
      strings = strings;
      str_count = initial_size;
      count = 0;
    } in
    do
      require (os.grants struct_size)
      if is_none base || is_none strings then ok none else ok (some q)

-- What a call of free is given.
pub data Block : Type 0 where
  strings_block base_block struct_block : Block

-- The result, and the blocks handed to free(), in order.
pub free : Option Queue → ℤ × List Block
free none = (minus_one, [])
free (some q) = (pos 1, free_strings (free_base (struct_block ∷ [])))
  where
    free_base : List Block → List Block
    free_base r = if is_none q.base then r else base_block ∷ r

    free_strings : List Block → List Block
    free_strings r = if is_none q.strings then r else strings_block ∷ r

-- `while(n < target) n += 4096;` on an int32_t, whose overflow is undefined.
pub grow_int : ℕ → ℕ → ℕ → Run ℕ
grow_int zero n target = out_of_fuel
grow_int (suc fuel) n target =
    let more = (do require (ltb (n + 4096) int_limit); grow_int fuel (n + 4096) target) in
    if ltb n target then more else ok n

-- `while(current < target) current += step;` on a size_t, which wraps.
pub grow_size : ℕ → ℕ → ℕ → ℕ → Run ℕ
grow_size step zero n target = out_of_fuel
grow_size step (suc fuel) n target =
    let more = grow_size step fuel ((n + step) % size_mod) target in
    if ltb n target then more else ok n

-- `str_count` has its new value, and `strings` is overwritten, also where realloc refuses.
pub str_extend : Os → Queue → ℕ → Run (Queue × ℤ)
str_extend os q new_size = do
  n ← grow_int (suc new_size) q.str_count new_size
  let strings = realloc os q.strings q.str_count (n * ptr_size % size_mod)
  let rc = if is_none strings then minus_one else pos 0
  ok (record q { str_count = n; strings = strings }, rc)

-- Where realloc refuses, `base` is overwritten by NULL and `bytes` is kept.
pub extend : Os → Queue → ℕ → Run (Queue × ℤ)
extend os q new_size = do
  n ← grow_size (os.page_size * 4096 % size_mod) (suc new_size) q.bytes new_size
  let base = realloc os q.base q.bytes n
  if is_none base
      then ok (record q { base = base }, minus_one)
      else ok (record q { base = base; bytes = n }, pos 0)

-- `if(qp->count + 1 > qp->str_count)` of the push
pub reserve_string : Os → Queue → Run (Queue × ℤ)
reserve_string os q = do
  require (ltb (q.count + 1) int_limit)
  if ltb q.str_count (q.count + 1) then str_extend os q (q.count + 1) else ok (q, pos 0)

-- `if(new_bytes > qp->bytes)` of the push
pub reserve_bytes : Os → Queue → ℕ → Run (Queue × ℤ)
reserve_bytes os q new_bytes =
    if ltb q.bytes new_bytes then extend os q new_bytes else ok (q, pos 0)

-- The writes that end the push: the offset, the string, `head` and `count`.
pub append : Queue → List ℕ → ℕ → Run (Queue × ℤ)
append q str len = do
  strings ← deref q.strings
  require (ltb q.count q.str_count)
  base ← deref q.base
  require (leb (q.head + length str + 1) q.bytes)
  ok (
    record q {
      strings = some (store strings q.count q.head);
      base = some (store_str base q.head str);
      head = (q.head + len) % size_mod;
      count = q.count + 1;
    },
    pos 0,
  )

-- The two reservations, each with its early return, and the writes.
pub push_str : Os → Queue → List ℕ → ℕ → Run (Queue × ℤ)
push_str os q str len = do
  (q1, rc1) ← reserve_string os q
  if is_neg rc1 then ok (q1, minus_one) else do
    (q2, rc2) ← reserve_bytes os q1 ((q1.head + len) % size_mod)
    if is_neg rc2 then ok (q2, minus_one) else append q2 str len

-- `str` is the bytes of the string before its zero; `none` is a NULL pointer. `len` is a uint32_t.
pub push : Os → Queue → Option (List ℕ) → Run (Queue × ℤ)
push os q none = ok (q, minus_one)
push os q (some str) =
    let len = (length str + 1) % u32_mod in
    if leb len 0
    then ok (q, minus_one)
    else if ltb max_string_len len
    then ok (q, minus_one)
    else push_str os q str len

-- The pop of a queue that is there. `has_buffer` says that `str` is not NULL. The last part of the
-- result is the string copied to `str`.
pub pop : Queue → Bool → Run (Queue × ℤ × Option (List ℕ))
pop q has_buffer =
    if ltb q.count 1
    then ok (q, minus_one, none)
    else if not has_buffer
    then ok (q, minus_one, none)
    else do
      strings ← deref q.strings
      require (leb q.count q.str_count)
      base ← deref q.base
      let current = strings (q.count - 1)
      str ← load_str (q.bytes - current) base current
      ok (record q { head = current; count = q.count - 1 }, pos 0, some str)

-- The whole pop, `if(!qp)` included.
pub pop_ptr : Option Queue → Bool → Run (Option Queue × ℤ × Option (List ℕ))
pop_ptr none has_buffer = ok (none, minus_one, none)
pop_ptr (some q) has_buffer = do (q', rc, out) ← pop q has_buffer; ok (some q', rc, out)
