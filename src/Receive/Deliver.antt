-- ===== src/Receive/Deliver.antt =====
-- CIRCLE_work_receive on the messages of a transfer gives the queue just the items they carry.
use libcircle.Prelude.{
  ℕ, zero, suc, ◌+◌, ◌-◌, ◌*◌, ◌%◌, ◌≤◌, ◌<◌, ◌≡◌, refl, ◌∙◌, ap, true, some, List, [], ◌∷◌, arith,
  length, ltb, Bool-cases, inl, inr, lt→ltb, le→leb, ltb→lt, ltb→le, All, ℤ,
}
use libcircle.C.{ok, int_limit, size_mod, Mem, load_str, Os}
use libcircle.C.Strings.{load_str-CStr}
use libcircle.Queue.{Queue}
use libcircle.Queue.Rep.{Layout, IsShort, Holds}
use libcircle.Queue.Extend.{Outcome-granted, Grew, str_extend-Outcome, extend-Outcome}
use libcircle.State.{Offsets}
use libcircle.Transfer.{to_int, sub_size, slice}
use libcircle.Transfer.Packet.{IsPacket}
use libcircle.Transfer.Shift.{Layout-shift}
use libcircle.Receive.{
  to_size, store_bytes, copy_offsets, reserve_pool, reserve_slots, receive_items,
}
use libcircle.Receive.Cells.{store_bytes-slice, copy_offsets-at, to_size-to_int, Layout-range}

module _ (os : Os) (grants : (n : ℕ) → os.grants n ≡ true) (q : Queue) (h : Holds q []) where
  reserve_pool-Grew :
      (n : ℕ)
      → 0 < os.page_size * 4096 % size_mod
      → n + os.page_size * 4096 % size_mod ≤ size_mod
      → (q' : Queue) × (reserve_pool os q n ≡ ok q') × Grew q q' [] × (n ≤ q'.bytes)
  unfolding reserve_pool
  reserve_pool-Grew n step room = elim (Bool-cases (ltb q.bytes n)) [
    | inl more ↦
        let (q', e, (g, le, _)) =
          Outcome-granted (extend-Outcome os n h step (ltb→lt q.bytes n more) room) grants in
        (q', rw (more, e), g, le)
    | inr free ↦ (
      q,
      rw free,
      record { holds = h; head_kept = refl; count_kept = refl },
      ltb→le q.bytes n free,
    )
  ]

  reserve_slots-Grew :
      (n : ℕ)
      → n + 4096 ≤ int_limit
      → (q' : Queue) × (reserve_slots os q n ≡ ok q')
        × Grew q q' []
        × (n ≤ q'.str_count)
        × (q'.bytes ≡ q.bytes)
  unfolding reserve_slots
  reserve_slots-Grew n room = elim (Bool-cases (ltb q.str_count n)) [
    | inl more ↦
        let (q', e, (g, le, same)) =
          Outcome-granted (str_extend-Outcome os n h (omega (arith, h.counted)) room) grants in
        (q', rw (more, e), g, le, same)
    | inr free ↦ (
      q,
      rw free,
      record { holds = h; head_kept = refl; count_kept = refl },
      ltb→le q.str_count n free,
      refl,
    )
  ]

-- The queue of the items received.
abbrev filled : Queue → Mem → Mem → (count head : ℕ) → Queue
filled q pool offsets count head = record q {
  base = some pool;
  strings = some offsets;
  count = count;
  head = head % size_mod;
}

-- The run of `receive_items`, on what its reads give.
receive_items-runs :
    (os : Os) (q q1 q2 : Queue) (offsets : Offsets) (count : ℕ) (chars : List ℕ) (cells : ℕ → ℤ)
    (b s : Mem) {x : List ℕ}
    → offsets.recv_buf ≡ some cells
    → 1 < offsets.count
    → reserve_pool os q ((q.head + to_size (cells 1)) % size_mod) ≡ ok q1
    → q1.base ≡ some b
    → length chars ≤ q1.bytes
    → reserve_slots os q1 count ≡ ok q2
    → q2.strings ≡ some s
    → count + 2 ≤ offsets.count
    → count ≤ q2.str_count
    → copy_offsets cells count 0 s 0 ≡ 0
    → load_str
        (q2.bytes - copy_offsets cells count 0 s (count - 1))
        (store_bytes b 0 chars)
        (copy_offsets cells count 0 s (count - 1))
      ≡ ok x
    → receive_items os q offsets count chars
      ≡ ok (
          filled q2
            (store_bytes b 0 chars)
            (copy_offsets cells count 0 s)
            count
            (copy_offsets cells count 0 s (count - 1) + length x + 1))
unfolding receive_items
receive_items-runs os q q1 q2 offsets count chars cells b s e1 l1 e2 e3 l2 e4 e5 l3 l4 e6 e7 = rw (
  e1,
  lt→ltb 1 offsets.count l1,
  e2,
  e4,
  e3,
  le→leb (length chars) q1.bytes l2,
  e5,
  le→leb (count + 2) offsets.count l3,
  le→leb count q2.str_count l4,
  e6,
  e7,
)

length-slice : (m : Mem) (p n : ℕ) → length (slice m p n) ≡ n
unfolding slice
length-slice m p zero = refl
length-slice m p (suc n) = ap suc (length-slice m (suc p) n)

-- The cells of the array of received ints tell the length of the characters and the offsets.
pub record HasHeader (cells : ℕ → ℤ) (n len first : ℕ) (s : Mem) : Type 0 where
  pub second : cells 1 ≡ to_int len
  pub rest : (j : ℕ) → j < n → cells (j + 2) ≡ to_int (sub_size (s (first + j)) (s first))

module _ {items : List (List ℕ)} {header : List ℤ} {bytes : List ℕ}
    (p : IsPacket items header bytes) (cells : ℕ → ℤ) (b s : Mem)
    (c : HasHeader cells (length items) p.len p.first p.offsets) where
  -- The copied offsets count from the start of the packet.
  packet-offset :
      (j : ℕ)
      → j < length items
      → copy_offsets cells (length items) 0 s j ≡ p.offsets (p.first + j) - p.offsets p.first
  packet-offset j lt =
      let (low, high) =
        Layout-range p.base p.offsets (p.offsets p.first + p.len) p.first (length items) p.whole j
          p.counted lt p.layout in
      let exact : sub_size (p.offsets (p.first + j)) (p.offsets p.first)
          ≡ p.offsets (p.first + j) - p.offsets p.first =
        omega (arith, low, high, p.fits) in
      rw (copy_offsets-at cells (length items) 0 s j (omega arith) (omega arith), c.rest j lt)
        (to_size-to_int _ (omega (arith, exact, low, high, p.fits)) ∙ exact)

  -- The strings of a packet in the memory of the receiver.
  packet-Layout : Layout (store_bytes b 0 bytes) (copy_offsets cells (length items) 0 s) p.len items
  packet-Layout =
      let n = length items in
      let start = p.offsets p.first in
      let limit : start + p.len - start ≡ p.len = omega arith in
      let placed : (a : ℕ)
          → start ≤ a
          → a < start + p.len
          → store_bytes b 0 bytes (a - start) ≡ p.base a =
        λ a lo hi.
          let at : start + (a - start) ≡ a = omega arith in
          let at0 : 0 + (a - start) ≡ a - start = omega arith in
          rw (p.bytes_are, ← at0)
            (store_bytes-slice b p.base 0 start p.len (a - start) (omega arith) ∙ ap p.base at) in
      let whole =
        Layout-shift p.base (store_bytes b 0 bytes) p.offsets (copy_offsets cells n 0 s) start
          p.first n (start + p.len) p.whole p.counted refl placed packet-offset p.layout in
      rw (limit, ← p.chosen) at whole

-- The queue that receives, and what the pool and the array may grow to.
pub record HasSpace (os : Os) (q : Queue) (n : ℕ) : Type 0 where
  pub step_pos : 0 < os.page_size * 4096 % size_mod
  pub bytes_room : q.head + int_limit + os.page_size * 4096 % size_mod ≤ size_mod
  pub slots_room : n + 4096 ≤ int_limit

filled-Holds :
    {q : Queue} {b s : Mem} {x : List ℕ} {xs : List (List ℕ)} (len : ℕ)
    → Holds q []
    → Layout b s len (x ∷ xs)
    → All IsShort (x ∷ xs)
    → len ≤ q.bytes
    → suc (length xs) ≤ q.str_count
    → Holds (filled q b s (suc (length xs)) (s (length xs) + length x + 1)) (x ∷ xs)
filled-Holds {q} {b} {s} {x} {xs} len h l short fits slots =
    let e : (s (length xs) + length x + 1) % size_mod ≡ s (length xs) + length x + 1 =
      omega (arith, l.1, h.small) in
    record {
      base = b;
      offsets = s;
      has_base = refl;
      has_offsets = refl;
      counted = refl;
      slots = slots;
      few = h.few;
      within = omega (arith, e, l.1);
      small = h.small;
      layout = (l.0, omega (arith, e), l.2);
      short = short;
    }

-- A message of items is received into an empty queue, which then holds just those items.
pub receive_items-Holds :
    (os : Os) {q : Queue} (offsets : Offsets) (cells : ℕ → ℤ) {items : List (List ℕ)}
    {header : List ℤ} {bytes : List ℕ}
    → ((n : ℕ) → os.grants n ≡ true)
    → Holds q []
    → HasSpace os q (length items)
    → (p : IsPacket items header bytes) → offsets.recv_buf ≡ some cells
    → length items + 2 ≤ offsets.count
    → HasHeader cells (length items) p.len p.first p.offsets
    → (q' : Queue) × (receive_items os q offsets (length items) bytes ≡ ok q') × Holds q' items
receive_items-Holds os offsets cells {items = []} grants h room p has wide c =
    absurd (omega (arith, p.some_items))
receive_items-Holds os {q} offsets cells {items = x ∷ xs} {bytes} grants h room p has wide c =
    let n = suc (length xs) in
    let len : to_size (cells 1) ≡ p.len = rw c.second (to_size-to_int p.len p.fits) in
    let (q1, e1, g1, l1) =
      reserve_pool-Grew os grants q h ((q.head + to_size (cells 1)) % size_mod) room.step_pos
        (omega (arith, len, p.fits, room.bytes_room)) in
    let (q2, e2, g2, l2, same) = reserve_slots-Grew os grants q1 g1.holds n room.slots_room in
    let b = g1.holds.base in
    let s = g2.holds.offsets in
    let l = packet-Layout p cells b s c in
    let top : n - 1 ≡ length xs = omega arith in
    let fits : p.len ≤ q1.bytes = omega (arith, len, l1, p.fits, room.bytes_room, h.within) in
    let at0 : p.first + 0 ≡ p.first = omega arith in
    let zero_first : copy_offsets cells n 0 s 0 ≡ 0 =
      packet-offset p cells b s c 0 (omega arith) ∙ rw at0 (omega arith) in
    let size : length bytes ≡ p.len =
      rw p.bytes_are (length-slice p.base (p.offsets p.first) p.len) in
    (
      filled q2 (store_bytes b 0 bytes) (copy_offsets cells n 0 s) n
          (copy_offsets cells n 0 s (length xs) + length x + 1),
      rw top at (
          receive_items-runs os q q1 q2 offsets n bytes cells b s {x = x} has (omega arith) e1
            g1.holds.has_base (omega (arith, size)) e2 g2.holds.has_offsets wide l2 zero_first
            (rw top
              (load_str-CStr _ (store_bytes b 0 bytes) _ x l.0 (omega (arith, l.1, same, fits))))),
      filled-Holds p.len g2.holds l p.short (omega (arith, same)) l2,
    )
