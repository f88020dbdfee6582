-- ===== src/Sends/Track.antt =====
-- CIRCLE_worksend_track keeps every send inside its arrays, which it doubles when they are full.
use libcircle.Prelude.{
  ℕ, ◌+◌, ◌*◌, ◌%◌, ◌≤◌, ◌<◌, ◌≡◌, ◌⊎◌, refl, true, Option, [], ◌∷◌, ◌++◌, arith, length,
  length-append, ltb, ◌==◌, ==_iff, Bool-cases, inl, inr, lt→ltb, ltb→lt, ltb→le,
}
use libcircle.C.{ok, int_limit, size_mod, Os}
use libcircle.Sends.{Payload, Sends, grow, track}

-- The cells in use are cells of the arrays.
pub record IsTracked (s : Sends) : Type 0 where
  pub inside : length s.slots ≤ s.capacity

-- The sends with one more behind them.
abbrev pub added : Sends → ℕ → Option Payload → Sends
added s capacity buf = record {
  slots = s.slots ++ (record { req = s.next_req; buf = buf } ∷ []);
  capacity = capacity;
  next_req = s.next_req + 1;
}

pub length-added :
    (s : Sends) (c : ℕ) (buf : Option Payload) → length (added s c buf).slots ≡ length s.slots + 1
length-added s c buf = length-append s.slots (record { req = s.next_req; buf = buf } ∷ [])

-- What becomes of the length of the arrays when they are full.
pub data Grown (before : ℕ) : ℕ → Type 0 where
  begun : before ≡ 0 → Grown before 32
  doubled : 0 < before → Grown before (before * 2)

Grown-bounds : {a b : ℕ} → Grown a b → (a < b) × (b ≤ a * 2 + 32)
Grown-bounds (begun e) = (omega (arith, e), omega arith)
Grown-bounds (doubled h) = (omega arith, omega arith)

grow_lem :
    (os : Os) (req_size : ℕ) (s : Sends)
    → ((n : ℕ) → os.grants n ≡ true)
    → s.capacity * 2 < int_limit
    → (c : ℕ) × (grow os req_size s ≡ ok (record s { capacity = c })) × Grown s.capacity c
unfolding grow
grow_lem os req_size s grants small = elim (Bool-cases (ltb 0 s.capacity)) [
  | inl more ↦ (
    s.capacity * 2,
    rw (
      more,
      lt→ltb (s.capacity * 2) int_limit small,
      grants (s.capacity * 2 * req_size % size_mod),
      grants (s.capacity * 2 * 8),
    ),
    doubled (ltb→lt 0 s.capacity more),
  )
  | inr none_ ↦ (
    32,
    rw (none_, grants (32 * req_size % size_mod), grants (32 * 8)),
    begun (omega (arith, ltb→le 0 s.capacity none_)),
  )
]

-- Where memory is granted and the arrays may be doubled, the send is added behind the others, and
-- all of them lie inside the arrays, which keep their length where a cell was free; else they are
-- doubled, or begin with 32 cells where they had none.
pub track-IsTracked :
    (os : Os) (req_size : ℕ) {s : Sends} (buf : Option Payload)
    → ((n : ℕ) → os.grants n ≡ true)
    → IsTracked s
    → s.capacity * 2 < int_limit
    → (c : ℕ) × (track os req_size s buf ≡ ok (added s c buf))
      × IsTracked (added s c buf)
      × (((length s.slots < s.capacity) × (c ≡ s.capacity))
          ⊎ ((length s.slots ≡ s.capacity) × Grown s.capacity c))
unfolding track
track-IsTracked os req_size {s} buf grants t small =
    elim (Bool-cases (length s.slots == s.capacity)) [
      | inl full ↦
          let (c, e, grown) = grow_lem os req_size s grants small in
          let (more, _) = Grown-bounds grown in
          (
            c,
            rw (full, e),
            record { inside = omega (arith, one_more, t.inside, more) },
            inr ((==_iff (length s.slots) s.capacity).0 full, grown),
          )
      | inr free ↦ (
        s.capacity,
        rw free,
        record { inside = ground (arith, one_more, t.inside) },
        inl (ground (arith, t.inside), refl),
      )
    ]
  where
    one_more :
        length (s.slots ++ (record { req = s.next_req; buf = buf } ∷ [])) ≡ length s.slots + 1
    one_more = omega (arith, length-append s.slots (record { req = s.next_req; buf = buf } ∷ []))

-- The same with a bound on the arrays that covers all sends.
pub track-within :
    (os : Os) (req_size bound : ℕ) {s : Sends} (buf : Option Payload)
    → ((n : ℕ) → os.grants n ≡ true)
    → IsTracked s
    → s.capacity ≤ bound
    → length s.slots * 2 + 32 ≤ bound
    → bound < int_limit
    → (c : ℕ) × (track os req_size s buf ≡ ok (added s c buf))
      × IsTracked (added s c buf)
      × (c ≤ bound)
unfolding track
track-within os req_size bound {s} buf grants t le room small =
    elim (Bool-cases (length s.slots == s.capacity)) [
      | inl full ↦
          let same : length s.slots ≡ s.capacity = (==_iff (length s.slots) s.capacity).0 full in
          let (c, e, grown) = grow_lem os req_size s grants (omega (arith, same, room, small)) in
          let (more, less) = Grown-bounds grown in
          (
            c,
            rw (full, e),
            record { inside = omega (arith, one_more, t.inside, more) },
            omega (arith, less, same, room),
          )
      | inr free ↦ (s.capacity, rw free, record { inside = ground (arith, one_more, t.inside) }, le)
    ]
  where
    one_more :
        length (s.slots ++ (record { req = s.next_req; buf = buf } ∷ [])) ≡ length s.slots + 1
    one_more = omega (arith, length-append s.slots (record { req = s.next_req; buf = buf } ∷ []))

-- The arrays of sends have room for `n` more within `bound` cells.
pub record HasSendRoom (bound n : ℕ) (s : Sends) : Type 0 where
  pub tracked : IsTracked s
  pub within : s.capacity ≤ bound
  pub room : (length s.slots + n) * 2 + 32 ≤ bound

pub HasSendRoom-added :
    {bound n : ℕ} {s : Sends} (c : ℕ) (buf : Option Payload)
    → HasSendRoom bound (n + 1) s
    → c ≤ bound
    → IsTracked (added s c buf)
    → HasSendRoom bound n (added s c buf)
HasSendRoom-added {s} c buf h le t =
    let one_more = length-append s.slots (record { req = s.next_req; buf = buf } ∷ []) in
    record { tracked = t; within = le; room = omega (arith, h.room, one_more) }

-- Room for more is room for fewer.
pub HasSendRoom-mono :
    {bound n : ℕ} {s : Sends} (m : ℕ) → m ≤ n → HasSendRoom bound n s → HasSendRoom bound m s
HasSendRoom-mono m le h = record {
  tracked = h.tracked;
  within = h.within;
  room = omega (arith, h.room);
}
