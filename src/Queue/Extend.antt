-- ===== src/Queue/Extend.antt =====
-- The growth of the pool and of the array in libcircle/queue.c: it keeps the strings of the queue, or
-- memory was refused.
use libcircle.Prelude.{
  ℕ, suc, ◌+◌, ◌*◌, ◌%◌, ◌≤◌, ◌<◌, ◌≡◌, refl, inl, inr, true, List, arith, ltb, if◌then◌else◌,
  Bool-cases, ℤ, pos, minus_one, lt→ltb,
}
use libcircle.C.{Run, ok, int_limit, size_mod, Os}
use libcircle.Queue.{Queue, str_extend, extend}
use libcircle.Queue.Grow.{grow_int-IsGrown, grow_size-IsGrown}
use libcircle.Queue.Rep.{Holds, Layout-frame, IsBroken}

-- What a call may answer: it succeeded and `P` holds of the queue, or memory was refused.
pub data Outcome (os : Os) (P : Queue → Type 0) : Run (Queue × ℤ) → Type 0 where
  done : {q : Queue} → P q → Outcome os P (ok (q, pos 0))
  refused : {q : Queue} → IsBroken os q → Outcome os P (ok (q, minus_one))

-- The queue `q'` is `q` but for a larger pool or a larger array.
pub record Grew (q q' : Queue) (items : List (List ℕ)) : Type 0 where
  pub holds : Holds q' items
  pub head_kept : q'.head ≡ q.head
  pub count_kept : q'.count ≡ q.count

module _ (os : Os) {q : Queue} {items : List (List ℕ)} where
  pub str_extend-Outcome :
      (n : ℕ)
      → Holds q items
      → q.count ≤ n
      → n + 4096 ≤ int_limit
      → Outcome os
          (λ q'. Grew q q' items × (n ≤ q'.str_count) × (q'.bytes ≡ q.bytes))
          (str_extend os q n)
  unfolding str_extend
  str_extend-Outcome n h le lim =
      let (r, e, g) = grow_int-IsGrown (suc n) q.str_count n (omega arith) lim in
      rw (e, h.has_offsets)
        (elim (Bool-cases (os.grants (r * 8 % size_mod))) [
          | inl granted ↦ rw granted (
              done (
                record {
                  holds = record {
                    base = h.base;
                    offsets = λ a. if ltb a q.str_count then h.offsets a else os.junk a;
                    has_base = h.has_base;
                    has_offsets = refl;
                    counted = h.counted;
                    slots = omega arith;
                    few = ground arith;
                    within = h.within;
                    small = h.small;
                    layout =
                        Layout-frame h.base h.base h.offsets
                          (λ a. if ltb a q.str_count then h.offsets a else os.junk a) q.head items
                          (λ a lo hi. refl) (λ a lo hi. rw (lt→ltb a q.str_count (omega arith)))
                          h.layout;
                    short = h.short;
                  };
                  head_kept = refl;
                  count_kept = refl;
                },
                g.reaches,
                refl,
              ))
          | inr denied ↦
              rw denied
                (refused (record { request = r * 8 % size_mod; refused = denied; lost = inr refl }))
        ])

  pub extend-Outcome :
      (n : ℕ)
      → Holds q items
      → 0 < os.page_size * 4096 % size_mod
      → q.bytes < n
      → n + os.page_size * 4096 % size_mod ≤ size_mod
      → Outcome os
          (λ q'. Grew q q' items × (n ≤ q'.bytes) × (q'.str_count ≡ q.str_count))
          (extend os q n)
  unfolding extend
  extend-Outcome n h pos_ lt lim =
      let (r, e, g) = grow_size-IsGrown _ (suc n) q.bytes n pos_ (omega arith) lim in
      rw (e, h.has_base)
        (elim (Bool-cases (os.grants r)) [
          | inl granted ↦ rw granted (
              done (
                record {
                  holds = record {
                    base = λ a. if ltb a q.bytes then h.base a else os.junk a;
                    offsets = h.offsets;
                    has_base = refl;
                    has_offsets = h.has_offsets;
                    counted = h.counted;
                    slots = h.slots;
                    few = h.few;
                    within = omega arith;
                    small = ground arith;
                    layout =
                        Layout-frame h.base _ h.offsets h.offsets q.head items
                          (λ a lo hi. rw (lt→ltb a q.bytes (omega arith))) (λ a lo hi. refl)
                          h.layout;
                    short = h.short;
                  };
                  head_kept = refl;
                  count_kept = refl;
                },
                g.reaches,
                refl,
              ))
          | inr denied ↦
              rw denied (refused (record { request = r; refused = denied; lost = inl refl }))
        ])

-- Where all memory is granted, a call succeeds.
pub Outcome-granted :
    {os : Os} {P : Queue → Type 0} {r : Run (Queue × ℤ)}
    → Outcome os P r
    → ((n : ℕ) → os.grants n ≡ true)
    → (q' : Queue) × (r ≡ ok (q', pos 0)) × P q'
Outcome-granted (done {q} p) grants = (q, refl, p)
Outcome-granted (refused b) grants = cc (grants b.request, b.refused)
