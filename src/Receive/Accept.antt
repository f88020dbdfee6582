-- ===== src/Receive/Accept.antt =====
-- CIRCLE_work_receive as a whole, and a transfer from CIRCLE_send_work on one rank to
-- CIRCLE_work_receive on another.
use libcircle.Prelude.{
  ℕ, suc, ◌+◌, ◌*◌, ◌≤◌, ◌<◌, ◌≡◌, refl, true, none, some, List, [], ◌∷◌, ◌++◌, arith, length, take,
  drop, leb, Bool-cases, inl, inr, leb→le, pos→==zero, ℤ, pos, length-take,
}
use libcircle.C.{ok, int_limit, Os}
use libcircle.Queue.{Queue}
use libcircle.Queue.Grow.{grow_int-IsGrown}
use libcircle.Queue.Rep.{Holds}
use libcircle.Sends.{Payload}
use libcircle.Sends.Track.{IsTracked}
use libcircle.State.{Tag, Offsets, State, isend}
use libcircle.State.Isend.{isend-ok}
use libcircle.Transfer.{send_work, blacken}
use libcircle.Transfer.Packet.{IsPacket}
use libcircle.Transfer.Send.{Sent, send_work-Sent}
use libcircle.Receive.{
  kept_ints, extend_offsets, store_ints, receive_items, receive_header, work_receive,
}
use libcircle.Receive.Cells.{length-offsets_from, store_ints-offsets_from}
use libcircle.Receive.Deliver.{HasHeader, HasSpace, receive_items-Holds}

-- The array of received ints reaches the size that is asked for.
extend_offsets-ok :
    (os : Os) (st : State) (n : ℕ) {cells : ℕ → ℤ}
    → ((r : ℕ) → os.grants r ≡ true)
    → st.offsets.recv_buf ≡ some cells
    → n + 4096 ≤ int_limit
    → (count : ℕ) × (cells' : ℕ → ℤ) × (extend_offsets os st n
        ≡ ok (record st { offsets = record { count = count; recv_buf = some cells' } }, pos 0))
      × (n ≤ count)
unfolding extend_offsets
extend_offsets-ok os st n {cells} grants has room = elim (Bool-cases (leb n st.offsets.count)) [
  | inl wide ↦ (st.offsets.count, cells, rw (wide, ← has) refl, leb→le n st.offsets.count wide)
  | inr narrow ↦
      let (r, e, g) = grow_int-IsGrown (suc n) st.offsets.count n (omega arith) room in
      (
        r,
        kept_ints os st.offsets.recv_buf st.offsets.count,
        rw (narrow, e, grants (r * 4)) refl,
        g.reaches,
      )
]

-- The run of `work_receive` on a message of items, on what its parts give.
work_receive-runs :
    (os : Os) (req_size : ℕ) (q q' : Queue) (st st' : State) (source n count : ℕ) (len : ℤ)
    (offs : List ℤ) (cells : ℕ → ℤ) (bytes : List ℕ) {header : List ℤ}
    → header ≡ pos (suc n) ∷ len ∷ offs
    → 0 < length header
    → extend_offsets os st (length header)
      ≡ ok (record st { offsets = record { count = count; recv_buf = some cells } }, pos 0)
    → receive_items os q
        (record { count = count; recv_buf = some (store_ints cells header) })
        (suc n)
        bytes
      ≡ ok q'
    → isend os req_size
        (record st {
          offsets = record { count = count; recv_buf = some (store_ints cells header) };
        })
        source
        Tag.work_receipt
        Payload.empty
        none
      ≡ ok st'
    → work_receive os req_size q st source header bytes ≡ ok (q', st', pos 0)
unfolding work_receive receive_header store_ints
work_receive-runs os req_size q q' st st' source n count len offs cells bytes {header} e some_ e1 e2
      e3 =
    let e4 : store_ints cells header 0 ≡ pos (suc n) = rw e refl in
    rw (pos→==zero (length header) some_, e1, e4, e2, e3)

stored-HasHeader :
    (m : ℕ → ℤ) {items : List (List ℕ)} {header : List ℤ} {bytes : List ℕ}
    (p : IsPacket items header bytes)
    → HasHeader (store_ints m header) (length items) p.len p.first p.offsets
unfolding store_ints
stored-HasHeader m {items} p = rw p.header_is (record {
  second = refl;
  rest = λ j lt.
      let e : j + 2 ≡ suc (suc j) = omega arith in
      rw e (
        store_ints-offsets_from (λ a. m (suc (suc a))) p.offsets (p.offsets p.first) (length items)
          p.first j lt);
})

packet-length :
    {items : List (List ℕ)} {header : List ℤ} {bytes : List ℕ}
    → IsPacket items header bytes
    → length header ≡ length items + 2
packet-length {items} p =
    rw p.header_is
      (omega (arith, length-offsets_from p.offsets (p.offsets p.first) (length items) p.first))

-- The side of a rank that waits for work: an empty queue with space for `n` items, its array of
-- received ints, and a list of sends that can grow once more.
pub record IsWaiting (os : Os) (q : Queue) (st : State) (n : ℕ) : Type 0 where
  pub granted : (r : ℕ) → os.grants r ≡ true
  pub empty : Holds q []
  pub space : HasSpace os q n
  pub cells : ℕ → ℤ
  pub has_cells : st.offsets.recv_buf ≡ some cells
  pub cells_room : n + 4098 ≤ int_limit
  pub tracked : IsTracked st.sends
  pub sends_room : st.sends.capacity * 2 < int_limit

IsWaiting-mono :
    {os : Os} {q : Queue} {st : State} {count : ℕ} (n : ℕ)
    → n ≤ count
    → IsWaiting os q st count
    → IsWaiting os q st n
IsWaiting-mono n le w = record {
  granted = w.granted;
  empty = w.empty;
  space = record {
    step_pos = w.space.step_pos;
    bytes_room = w.space.bytes_room;
    slots_room = omega (arith, w.space.slots_room);
  };
  cells = w.cells;
  has_cells = w.has_cells;
  cells_room = omega (arith, w.cells_room);
  tracked = w.tracked;
  sends_room = w.sends_room;
}

-- The messages of a transfer give an empty queue just the items they carry, and a receipt goes to
-- their sender.
pub work_receive-Holds :
    (os : Os) (req_size : ℕ) {q : Queue} (st : State) (source : ℕ) {items : List (List ℕ)}
    {header : List ℤ} {bytes : List ℕ}
    → IsWaiting os q st (length items)
    → IsPacket items header bytes
    → (q' : Queue) × (st' : State) × (work_receive os req_size q st source header bytes
        ≡ ok (q', st', pos 0))
      × Holds q' items
      × (st'.posted
          ≡ st.posted
            ++ (record { dest = source; tag = Tag.work_receipt; payload = Payload.empty } ∷ []))
      × (st'.work_outstanding ≡ st.work_outstanding)
work_receive-Holds os req_size st source {items = []} w p = absurd (omega (arith, p.some_items))
work_receive-Holds os req_size {q} st source {items = x ∷ xs} {header} {bytes} w p =
    let n = packet-length p in
    let (count, cells, e1, wide) =
      extend_offsets-ok os st (length header) w.granted w.has_cells
        (omega (arith, n, w.cells_room)) in
    let offsets : Offsets = record { count = count; recv_buf = some (store_ints cells header) } in
    let (q', e2, h) =
      receive_items-Holds os offsets (store_ints cells header) w.granted w.empty w.space p refl
        (omega (arith, n, wide)) (stored-HasHeader cells p) in
    let st1 = record st { offsets = offsets } in
    let (c, e3, _) =
      isend-ok os req_size st1 source Tag.work_receipt Payload.empty none w.granted w.tracked
        w.sends_room in
    (
      q',
      _,
      work_receive-runs os req_size q q' st _ source (length xs) count _ _ cells bytes p.header_is
          (omega (arith, n)) e1 e2 e3,
      h,
      refl,
      refl,
    )

-- A transfer of `count` of the items of the queue `q` of the rank `st` to the rank `dest`, whose
-- queue is `r` and whose state is `rt`.
pub record Transferred (os os' : Os) (req_size : ℕ) (q r : Queue) (st rt : State) (dest count : ℕ)
    (items : List (List ℕ)) : Type 0 where
  pub amount : ℕ
  pub header : List ℤ
  pub bytes : List ℕ
  pub queue : Queue
  pub other : Queue
  pub state : State
  pub other_state : State
  pub some_items : 0 < amount
  pub no_more : amount ≤ count
  pub sends : send_work os req_size q st dest count ≡ ok (queue, state, pos 0)
  pub messages : Sent (blacken st dest) dest header bytes state
  pub receives :
      work_receive os' req_size r rt st.rank header bytes ≡ ok (other, other_state, pos 0)
  pub kept : Holds queue (drop amount items)
  pub given : Holds other (take amount items)
  pub receipt :
      other_state.posted
      ≡ rt.posted
        ++ (record { dest = st.rank; tag = Tag.work_receipt; payload = Payload.empty } ∷ [])

-- A transfer loses, copies and invents nothing. Where all memory is granted, the sends in flight
-- are tracked and can grow, the queue holds `items`, and the other rank waits with an empty queue
-- and space for `count` items, a call of `send_work` for at least one and at most all items returns
-- 0; the call of `work_receive` on its two messages returns 0 and answers with a receipt; and for
-- some amount from 1 up to `count` the sender's queue holds all but the last `amount` items, the
-- receiver's just those.
pub transfer-Holds :
    (os os' : Os) (req_size : ℕ) {q r : Queue} (st rt : State) (dest count : ℕ)
    {items : List (List ℕ)}
    → ((n : ℕ) → os.grants n ≡ true)
    → IsTracked st.sends
    → st.sends.capacity * 4 + 64 < int_limit
    → Holds q items
    → 0 < count
    → count ≤ length items
    → IsWaiting os' r rt count
    → Transferred os os' req_size q r st rt dest count items
transfer-Holds os os' req_size {q} {r} st rt dest count {items} grants t small h some_ le w =
    let (m, header, bytes, q', st', low, high, e, h', s, p) =
      send_work-Sent os req_size st dest count grants t small h some_ le in
    let n : length (take m items) ≡ m = length-take m items (omega arith) in
    let w' = IsWaiting-mono (length (take m items)) (omega (arith, n)) w in
    let (r', rt', e', h'', posted, _) = work_receive-Holds os' req_size rt st.rank w' p in
    record {
      amount = m;
      header = header;
      bytes = bytes;
      queue = q';
      other = r';
      state = st';
      other_state = rt';
      some_items = low;
      no_more = high;
      sends = e;
      messages = s;
      receives = e';
      kept = h';
      given = h'';
      receipt = posted;
    }
