-- ===== src/Transfer/Send.antt =====
-- CIRCLE_send_work takes items off the end of the queue and puts just those into its messages.
use libcircle.Prelude.{
  ℕ, zero, suc, ◌+◌, ◌-◌, ◌*◌, ◌≤◌, ◌<◌, ◌≡◌, refl, true, some, List, [], ◌∷◌, ◌++◌, arith, length,
  take, drop, length-take, length-drop, All-take, All-drop, ℤ, pos, le→leb, le→ltb, pos→==zero,
}
use libcircle.C.{ok, int_limit, Mem, Os}
use libcircle.Queue.{Queue}
use libcircle.Queue.Rep.{Layout, Holds, Layout-mono}
use libcircle.Sends.{Payload, Sends}
use libcircle.Sends.Track.{IsTracked, HasSendRoom, HasSendRoom-mono, added, length-added}
use libcircle.State.{Tag, State, post, isend}
use libcircle.State.Isend.{isend-within}
use libcircle.Transfer.{int_max, to_int, slice, offsets_from, blacken, send_items, send_work}
use libcircle.Transfer.Packet.{IsPacket}
use libcircle.Transfer.Span.{width, width_bounds, span-width, shrink_lem}

-- A queue keeps its layout when its last strings are dropped.
Layout-drop :
    (b s : Mem) (limit n : ℕ) (xs : List (List ℕ))
    → Layout b s limit xs
    → Layout b s limit (drop n xs)
Layout-drop b s limit zero xs l = l
Layout-drop b s limit (suc n) [] l = tt
Layout-drop b s limit (suc n) (x ∷ xs) l =
    Layout-mono b s (s (length xs)) limit (drop n xs) (omega (arith, l.1))
      (Layout-drop b s (s (length xs)) n xs l.2)

-- The queue that is left when `n` of its items have been sent: `head` stays where it was.
drop-Holds :
    {q : Queue} {items : List (List ℕ)} (n : ℕ)
    → Holds q items
    → n ≤ length items
    → Holds (record q { count = q.count - n }) (drop n items)
drop-Holds {q} {items} n h le = record {
  base = h.base;
  offsets = h.offsets;
  has_base = h.has_base;
  has_offsets = h.has_offsets;
  counted = omega (arith, h.counted, length-drop n items);
  slots = omega (arith, h.slots);
  few = h.few;
  within = h.within;
  small = h.small;
  layout = Layout-drop h.base h.offsets q.head n items h.layout;
  short = All-drop _ n items h.short;
}

-- The state after the two messages of a transfer: one more transfer is outstanding.
pub record Sent (st : State) (dest : ℕ) (header : List ℤ) (bytes : List ℕ) (st' : State)
    : Type 0 where
  pub outstanding : st'.work_outstanding ≡ st.work_outstanding + 1
  pub token_kept : st'.token ≡ st.token
  pub term_kept : st'.term ≡ st.term
  pub tree_kept : st'.tree ≡ st.tree
  pub each_tracked : length st'.sends.slots ≡ length st.sends.slots + 2
  pub messages :
      st'.posted
      ≡ (st.posted
          ++ (record { dest = dest; tag = Tag.work_reply; payload = Payload.ints header } ∷ []))
        ++ (record { dest = dest; tag = Tag.work_reply; payload = Payload.chars bytes } ∷ [])
  pub abort_kept : st'.abort_flag ≡ st.abort_flag

-- The run of `send_items`, on what its reads give.
send_items-runs :
    (os : Os) (req_size : ℕ) (q : Queue) (st st1 : State) (dest m len first : ℕ) (b s : Mem)
    {sends : Sends}
    → (header : List ℤ) (bytes : List ℕ)
    → header ≡ pos m ∷ to_int len ∷ offsets_from s (s first) m first
    → bytes ≡ slice b (s first) len
    → ((n : ℕ) → os.grants n ≡ true)
    → q.strings ≡ some s
    → q.base ≡ some b
    → q.count - m ≡ first
    → s first + len ≤ q.bytes
    → isend os req_size st dest Tag.work_reply (Payload.ints header) (some (Payload.ints header))
      ≡ ok st1
    → isend os req_size st1 dest Tag.work_reply (Payload.chars bytes) (some (Payload.chars bytes))
      ≡ ok (record (post st1 dest Tag.work_reply (Payload.chars bytes)) { sends = sends })
    → send_items os req_size q st dest m len
      ≡ ok (
        record q { count = q.count - m },
        record (post st1 dest Tag.work_reply (Payload.chars bytes)) {
          sends = sends;
          work_outstanding = st1.work_outstanding + 1;
        },
        pos 0,
      )
unfolding send_items
send_items-runs os req_size q st st1 dest m len first b s header bytes eh eb grants hs hb ef fits e1
      e2 =
    rw (
      grants ((2 + m) * 4),
      grants len,
      hs,
      hb,
      ef,
      le→leb (s first + len) q.bytes fits,
      ← eh,
      ← eb,
      e1,
      e2,
    )

send_items-Sent :
    (os : Os) (req_size bound more : ℕ) {q : Queue} (st : State) (dest m : ℕ) {x : List ℕ}
    {xs : List (List ℕ)}
    → ((n : ℕ) → os.grants n ≡ true)
    → HasSendRoom bound (more + 2) st.sends
    → bound < int_limit
    → (h : Holds q (x ∷ xs)) → 0 < m
    → m ≤ suc (length xs)
    → width h m < int_limit
    → (header : List ℤ) × (bytes : List ℕ) × (q' : Queue) × (st' : State) × (send_items os req_size
          q st dest m
          (width h m)
        ≡ ok (q', st', pos 0))
      × Holds q' (drop m (x ∷ xs))
      × Sent st dest header bytes st'
      × HasSendRoom bound more st'.sends
      × IsPacket (take m (x ∷ xs)) header bytes
send_items-Sent os req_size bound more {q} st dest m {x} {xs} grants t small h some_ le fits =
    let items = x ∷ xs in
    let first = suc (length xs) - m in
    let start = h.offsets first in
    let len = width h m in
    let (low, total, inside) = width_bounds h m some_ le in
    let e : q.count - m ≡ first = omega (arith, h.counted) in
    let n : length (take m items) ≡ m = length-take m items le in
    let header = pos m ∷ to_int len ∷ offsets_from h.offsets start m first in
    let bytes = slice h.base start len in
    let p1 = Payload.ints header in
    let p2 = Payload.chars bytes in
    let (c1, e1, t1) =
      isend-within os req_size bound (more + 1) st dest Tag.work_reply p1 (some p1) grants
        (HasSendRoom-mono (more + 1 + 1) (omega arith) t) small in
    let st1 = record (post st dest Tag.work_reply p1) { sends = added st.sends c1 (some p1) } in
    let (c2, e2, t2) =
      isend-within os req_size bound more st1 dest Tag.work_reply p2 (some p2) grants t1 small in
    let st2 = record (post st1 dest Tag.work_reply p2) {
      sends = added st1.sends c2 (some p2);
      work_outstanding = st1.work_outstanding + 1;
    } in
    let rest = drop-Holds m h le in
    (
      header,
      bytes,
      record q { count = q.count - m },
      st2,
      send_items-runs os req_size q st st1 dest m len first h.base h.offsets header bytes refl refl
          grants h.has_offsets h.has_base e (omega (arith, total, inside, h.within)) e1 e2,
      rest,
      record {
        outstanding = refl;
        token_kept = refl;
        term_kept = refl;
        tree_kept = refl;
        each_tracked = omega (
          arith,
          length-added st.sends c1 (some p1),
          length-added (added st.sends c1 (some p1)) c2 (some p2),
        );
        abort_kept = refl;
        messages = refl;
      },
      t2,
      record {
        base = h.base;
        offsets = h.offsets;
        first = first;
        len = len;
        whole = items;
        counted = omega (arith, n);
        chosen = rw n;
        some_items = omega (arith, n);
        layout = (h.layout.0, omega (arith, total), h.layout.2);
        fits = fits;
        header_is = rw n;
        bytes_are = refl;
        short = All-take _ m items h.short;
      },
    )

pub blacken_kept :
    (st : State) (dest : ℕ)
    → ((blacken st dest).sends ≡ st.sends)
      × ((blacken st dest).posted ≡ st.posted)
      × ((blacken st dest).abort_flag ≡ st.abort_flag)
unfolding blacken
blacken_kept st dest = ground arith

-- The same where the arrays of sends have room for `more` after the two messages.
pub send_work-within :
    (os : Os) (req_size bound more : ℕ) {q : Queue} (st : State) (dest count : ℕ)
    {items : List (List ℕ)}
    → ((n : ℕ) → os.grants n ≡ true)
    → HasSendRoom bound (more + 2) st.sends
    → bound < int_limit
    → Holds q items
    → 0 < count
    → count ≤ length items
    → (m : ℕ) × (header : List ℤ) × (bytes : List ℕ) × (q' : Queue) × (st' : State) × (0 < m)
      × (m ≤ count)
      × (send_work os req_size q st dest count ≡ ok (q', st', pos 0))
      × Holds q' (drop m items)
      × Sent (blacken st dest) dest header bytes st'
      × HasSendRoom bound more st'.sends
      × IsPacket (take m items) header bytes
unfolding send_work
send_work-within os req_size bound more st dest count {items = []} grants t small h some_ le =
    absurd (omega arith)
send_work-within os req_size bound more {q} st dest count {items = x ∷ xs} grants t small h some_
      le =
    let (m, e, pos_, less, fits) = shrink_lem h count count some_ (omega arith) le in
    let (kept, _, _) = blacken_kept st dest in
    let (header, bytes, q', st', e', h', s, t', p) =
      send_items-Sent os req_size bound more (blacken st dest) dest m grants (rw kept t) small h
        pos_ (omega arith) fits in
    (
      m,
      header,
      bytes,
      q',
      st',
      pos_,
      less,
      rw (
        pos→==zero count some_,
        span-width h count some_ le,
        e,
        le→ltb int_max (width h m) (omega arith),
        e',
      ),
      h',
      s,
      t',
      p,
    )

-- A call for at least one item, on a queue that holds so many, where memory is granted, the sends lie
-- within their arrays and the arrays have room to grow within an int, returns 0. It has sent the last `m`
-- items in two messages, whose sends are tracked, at least one item and no more than asked for; the queue holds just the
-- others, one more transfer is outstanding, and the process has turned black where the rule of the
-- token says so.
pub send_work-Sent :
    (os : Os) (req_size : ℕ) {q : Queue} (st : State) (dest count : ℕ) {items : List (List ℕ)}
    → ((n : ℕ) → os.grants n ≡ true)
    → IsTracked st.sends
    → st.sends.capacity * 4 + 64 < int_limit
    → Holds q items
    → 0 < count
    → count ≤ length items
    → (m : ℕ) × (header : List ℤ) × (bytes : List ℕ) × (q' : Queue) × (st' : State) × (0 < m)
      × (m ≤ count)
      × (send_work os req_size q st dest count ≡ ok (q', st', pos 0))
      × Holds q' (drop m items)
      × Sent (blacken st dest) dest header bytes st'
      × IsPacket (take m items) header bytes
send_work-Sent os req_size st dest count grants t small h some_ le =
    let room : HasSendRoom (st.sends.capacity * 4 + 64) (0 + 2) st.sends = record {
      tracked = t;
      within = omega arith;
      room = omega (arith, t.inside);
    } in
    let (m, header, bytes, q', st', pos_, less, e, h', s, _, p) =
      send_work-within os req_size (st.sends.capacity * 4 + 64) 0 st dest count grants room small h
        some_ le in
    (m, header, bytes, q', st', pos_, less, e, h', s, p)
