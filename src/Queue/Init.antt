-- ===== src/Queue/Init.antt =====
-- CIRCLE_internal_queue_init: what each outcome of its three requests for memory gives.
use libcircle.Prelude.{◌*◌, ◌≡◌, refl, true, false, none, some, [], ◌||◌, is_none, arith}
use libcircle.C.{ok, fault, Os, malloc}
use libcircle.Queue.{Queue, initial_size, max_string_len, ptr_size, struct_size, init}
use libcircle.Queue.Rep.{Holds}

-- The queue that the first three writes and the two blocks make.
abbrev pub fresh : Os → Queue
fresh os = record {
  base = some os.junk;
  bytes = max_string_len * initial_size;
  head = 0;
  strings = some os.junk;
  str_count = initial_size;
  count = 0;
}

-- Where its three requests for memory are granted, the call returns a queue that holds no string.
pub init-Holds :
    (os : Os)
    → os.grants struct_size ≡ true
    → os.grants (max_string_len * initial_size) ≡ true
    → os.grants (ptr_size * initial_size) ≡ true
    → (init os ≡ ok (some (fresh os))) × Holds (fresh os) []
unfolding init
init-Holds os a b c = (
  rw (a, b, c),
  record {
    base = os.junk;
    offsets = os.junk;
    has_base = refl;
    has_offsets = refl;
    counted = refl;
    slots = omega arith;
    few = omega arith;
    within = omega arith;
    small = omega arith;
    layout = tt;
    short = tt;
  },
)

-- Where the pool or the array is refused the result is NULL; where the struct itself is refused,
-- its fields are written through NULL before the test.
pub init_refused :
    (os : Os)
    → (os.grants struct_size ≡ true
        → (is_none (malloc os (max_string_len * initial_size))
            || is_none (malloc os (ptr_size * initial_size)))
          ≡ true
        → init os ≡ ok none)
      × (os.grants struct_size ≡ false → init os ≡ fault)
unfolding init
init_refused os = (λ a b. rw (a, b), λ a. rw a)
