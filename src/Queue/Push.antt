-- ===== src/Queue/Push.antt =====
-- CIRCLE_internal_queue_push keeps the invariant, stays inside its blocks, and puts the string on
-- top of the others.
use native.Mathlib.Nat.{mod-eq_of_lt}
use libcircle.Prelude.{
  ℕ, ◌+◌, ◌*◌, ◌%◌, ◌≤◌, ◌<◌, ◌≡◌, refl, ◌∙◌, inl, inr, true, none, some, List, ◌∷◌, arith, ltb,
  if◌then◌else◌, length, Bool-cases, ℤ, pos, minus_one, is_neg, lt→ltb, le→ltb, le→leb, lt→leb,
  ltb→lt, ltb→le,
}
use libcircle.C.{Run, ok, ◌>>=◌, int_limit, u32_mod, size_mod, store, store_str, Os}
use libcircle.C.Strings.{NoZero, store_str-CStr, store_str-Agree_below}
use libcircle.Queue.{Queue, max_string_len, reserve_string, reserve_bytes, append, push_str, push}
use libcircle.Queue.Rep.{IsShort, Holds, Layout-frame, HasRoom}
use libcircle.Queue.Extend.{
  Outcome, done, refused, Outcome-granted, Grew, str_extend-Outcome, extend-Outcome,
}

-- What a push of `x` makes of a queue `q` that holds `items`.
pub record Pushed (q : Queue) (x : List ℕ) (items : List (List ℕ)) (q' : Queue) : Type 0 where
  pub holds : Holds q' (x ∷ items)
  pub head_moved : q'.head ≡ q.head + length x + 1

module _ (os : Os) {q : Queue} {items : List (List ℕ)} where
  append-Outcome :
      (x : List ℕ)
      → Holds q items
      → NoZero x
      → IsShort x
      → q.count < q.str_count
      → q.head + length x + 1 ≤ q.bytes
      → Outcome os (Pushed q x items) (append q x (length x + 1))
  unfolding append
  append-Outcome x h nz short slot fits =
      let start : store h.offsets q.count q.head (length items) ≡ q.head =
        ground (arith, h.counted) in
      let kept =
        Layout-frame h.base (store_str h.base q.head x) h.offsets (store h.offsets q.count q.head)
          q.head items (λ a lo hi. store_str-Agree_below h.base q.head x a hi)
          (λ a lo hi. ground (arith, h.counted)) h.layout in
      rw (h.has_offsets, h.has_base, lt→ltb q.count q.str_count slot, le→leb _ q.bytes fits)
        (done (record {
          holds = record {
            base = store_str h.base q.head x;
            offsets = store h.offsets q.count q.head;
            has_base = refl;
            has_offsets = refl;
            counted = omega (arith, h.counted);
            slots = omega arith;
            few = h.few;
            within = omega (arith, h.small);
            small = h.small;
            layout = rw start (store_str-CStr h.base q.head x nz, omega (arith, h.small), kept);
            short = (short, h.short);
          };
          head_moved = omega (arith, h.small);
        }))

  reserve_string-Outcome :
      Holds q items
      → q.count + 4097 ≤ int_limit
      → Outcome os
          (λ q'. Grew q q' items × (q.count + 1 ≤ q'.str_count) × (q'.bytes ≡ q.bytes))
          (reserve_string os q)
  unfolding reserve_string
  reserve_string-Outcome h lim =
      rw (lt→ltb (q.count + 1) int_limit (omega arith))
        (elim (Bool-cases (ltb q.str_count (q.count + 1))) [
          | inl full ↦ rw full (str_extend-Outcome os (q.count + 1) h (omega arith) (omega arith))
          | inr free ↦
              rw free (
                done
                  (record { holds = h; head_kept = refl; count_kept = refl }, ground arith, refl))
        ])

  reserve_bytes-Outcome :
      (n : ℕ)
      → Holds q items
      → 0 < os.page_size * 4096 % size_mod
      → n + os.page_size * 4096 % size_mod ≤ size_mod
      → Outcome os
          (λ q'. Grew q q' items × (n ≤ q'.bytes) × (q'.str_count ≡ q.str_count))
          (reserve_bytes os q n)
  unfolding reserve_bytes
  reserve_bytes-Outcome n h step lim = elim (Bool-cases (ltb q.bytes n)) [
    | inl full ↦ rw full (extend-Outcome os n h step (ltb→lt _ _ full) lim)
    | inr free ↦
        rw free
          (done (record { holds = h; head_kept = refl; count_kept = refl }, ltb→le _ _ free, refl))
  ]

-- The rule for a call whose negative result is passed on at once.
Outcome-and_then :
    {os : Os} {P R : Queue → Type 0} {r : Run (Queue × ℤ)} {k : Queue → Run (Queue × ℤ)}
    → Outcome os P r
    → ((q : Queue) → P q → Outcome os R (k q))
    → Outcome os R (r >>= λ (q, rc). if is_neg rc then ok (q, minus_one) else k q)
Outcome-and_then (done p) next = next _ p
Outcome-and_then (refused b) next = refused b

Outcome-mono :
    {os : Os} {P R : Queue → Type 0} {r : Run (Queue × ℤ)}
    → Outcome os P r
    → ((q : Queue) → P q → R q)
    → Outcome os R r
Outcome-mono (done p) weaken = done (weaken _ p)
Outcome-mono (refused b) weaken = refused b

module _ (os : Os) {q : Queue} {items : List (List ℕ)} where
  push_str-Outcome :
      (x : List ℕ)
      → Holds q items
      → HasRoom os q
      → NoZero x
      → IsShort x
      → Outcome os (Pushed q x items) (push_str os q x (length x + 1))
  unfolding push_str
  push_str-Outcome x h room nz short =
      Outcome-and_then (reserve_string-Outcome os h room.strings_room) λ q1 (g1, slot, b1).
        Outcome-and_then
          (reserve_bytes-Outcome os ((q1.head + (length x + 1)) % size_mod) g1.holds room.step_pos
            (omega (arith, g1.head_kept, room.bytes_room)))
          λ q2 (g2, fits, same).
            let same_head : q2.head ≡ q.head = g2.head_kept ∙ g1.head_kept in
            Outcome-mono
              (append-Outcome os x g2.holds nz short (omega (arith, g2.count_kept, g1.count_kept))
                (omega (arith, same_head, room.bytes_room)))
              λ q3 p. record {
                holds = p.holds;
                head_moved = omega (arith, same_head, p.head_moved);
              }

  -- A push of a string that fits on a queue with room to grow returns without a fault. It returns
  -- 0, and the queue holds the string on top of what it held; or it returns -1, memory has been
  -- refused, and the queue has lost its pool or its array.
  pub push-Outcome :
      (x : List ℕ)
      → Holds q items
      → HasRoom os q
      → NoZero x
      → IsShort x
      → Outcome os (Pushed q x items) (push os q (some x))
  unfolding push
  push-Outcome x h room nz short =
      rw
        (
          mod-eq_of_lt {n = length x + 1} {m = u32_mod} (omega arith),
          lt→leb (length x + 1) 0 (omega arith),
          le→ltb max_string_len (length x + 1) (omega arith),
        )
        (push_str-Outcome x h room nz short)

  -- A push that is not refused memory returns 0 and puts the string on top.
  pub push-Holds :
      (x : List ℕ)
      → Holds q items
      → HasRoom os q
      → NoZero x
      → IsShort x
      → ((n : ℕ) → os.grants n ≡ true)
      → (q' : Queue) × (push os q (some x) ≡ ok (q', pos 0)) × Pushed q x items q'
  push-Holds x h room nz short grants = Outcome-granted (push-Outcome x h room nz short) grants

-- The two values that a push turns away leave the queue as it was.
pub push_rejects :
    (os : Os) (q : Queue) (x : List ℕ)
    → max_string_len ≤ length x
    → length x + 1 < u32_mod
    → (push os q (some x) ≡ ok (q, minus_one)) × (push os q none ≡ ok (q, minus_one))
unfolding push
push_rejects os q x long fits = (
  rw (
    mod-eq_of_lt {n = length x + 1} {m = u32_mod} (omega arith),
    lt→leb (length x + 1) 0 (omega arith),
    lt→ltb max_string_len (length x + 1) (omega arith),
  ),
  refl,
)
