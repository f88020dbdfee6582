-- ===== src/Queue/Pop.antt =====
-- CIRCLE_internal_queue_pop gives back the last string, and with the push makes the queue a stack.
use libcircle.Prelude.{
  ℕ, ◌-◌, ◌≤◌, ◌≡◌, Bool, true, none, some, List, [], ◌∷◌, arith, length, pos, minus_one, le→ltb,
  le→leb,
}
use libcircle.C.{ok, Mem}
use libcircle.C.Strings.{load_str-CStr}
use libcircle.Queue.{Queue, pop}
use libcircle.Queue.Rep.{Holds}

-- The queue that a pop leaves.
abbrev pub popped : Queue → Mem → Queue
popped q offsets = record q { head = offsets (q.count - 1); count = q.count - 1 }

module _ {q : Queue} {x : List ℕ} {items : List (List ℕ)} (h : Holds q (x ∷ items)) where
  pub popped-Holds : Holds (popped q h.offsets) items
  popped-Holds =
      let e : q.count - 1 ≡ length items = omega (arith, h.counted) in
      let l = h.layout in
      record {
        base = h.base;
        offsets = h.offsets;
        has_base = h.has_base;
        has_offsets = h.has_offsets;
        counted = e;
        slots = omega (arith, h.slots);
        few = h.few;
        within = rw e (omega (arith, l.1, h.within));
        small = h.small;
        layout = rw e l.2;
        short = h.short.1;
      }

  pub popped-head : (popped q h.offsets).head ≤ q.head
  popped-head =
      let e : q.count - 1 ≡ length items = omega (arith, h.counted) in
      let l = h.layout in rw e (omega (arith, l.1))

  -- A pop of a queue that holds strings returns 0, copies the last one to the buffer, and the
  -- queue holds the others.
  pub pop-Holds :
      (pop q true ≡ ok (popped q h.offsets, pos 0, some x)) × Holds (popped q h.offsets) items
  unfolding pop
  pop-Holds =
      let e : q.count - 1 ≡ length items = omega (arith, h.counted) in
      let l = h.layout in
      (
        rw (
          le→ltb q.count 1 (omega (arith, h.counted)),
          h.has_offsets,
          le→leb q.count q.str_count h.slots,
          h.has_base,
          e,
          load_str-CStr (q.bytes - h.offsets (length items)) h.base (h.offsets (length items)) x l.0
              (omega (arith, l.1, h.within)),
        ),
        popped-Holds,
      )

-- On an empty queue a pop returns -1 and changes nothing; so it does without a buffer.
pub pop-empty : {q : Queue} (b : Bool) → Holds q [] → pop q b ≡ ok (q, minus_one, none)
unfolding pop
pop-empty b h = rw h.counted
