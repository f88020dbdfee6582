-- ===== src/Transfer/Many.antt =====
-- A whole answer to many requestors: CIRCLE_send_work_to_many.
use mathlib.Core.List.{append-nil}
use libcircle.Prelude.{
  ℕ, zero, suc, ◌+◌, ◌*◌, ◌≤◌, ◌<◌, ◌≡◌, refl, sym, ◌∙◌, ap, Bool, true, false, some, List, [], ◌∷◌,
  ◌++◌, arith, length, take, drop, length-drop, ℤ, pos, pos→==zero,
}
use libcircle.C.{ok, int_limit, Os}
use libcircle.Queue.{Queue}
use libcircle.Queue.Rep.{Holds}
use libcircle.Sends.{Sends}
use libcircle.Sends.Track.{
  HasSendRoom, HasSendRoom-added, HasSendRoom-mono, added, length-added, track-within,
}
use libcircle.Spread.{split_sizes}
use libcircle.Spread.Share.{sum, IsSplit, split_sizes-IsSplit}
use libcircle.State.{State}
use libcircle.Transfer.{blacken, send_work, send_all, send_work_to_many}
use libcircle.Transfer.Refusal.{refusal, answer_buf, send_no_work-track}
use libcircle.Transfer.Send.{blacken_kept, send_work-within}
use libcircle.Transfer.Dealt.{
  transfer, all_served, no_share, share, HasDealt, served-posts, none-posts,
}

-- One round of the loop.
send_all-step :
    (os : Os) (req_size : ℕ) (q q1 : Queue) (st st1 : State) (rc : ℤ) (r n : ℕ)
    (requestors shares : List ℕ) {q' : Queue} {st' : State}
    → send_work os req_size q st r n ≡ ok (q1, st1, rc)
    → send_all os req_size q1 st1 requestors shares ≡ ok (q', st')
    → send_all os req_size q st (r ∷ requestors) (n ∷ shares) ≡ ok (q', st')
unfolding send_all
send_all-step os req_size q q1 st st1 rc r n requestors shares e run = rw e run

-- A requestor whose share is empty.
send_work-none :
    (os : Os) (req_size bound more : ℕ) (q : Queue) (st : State) (r : ℕ)
    → ((n : ℕ) → os.grants n ≡ true)
    → HasSendRoom bound (more + 1) st.sends
    → bound < int_limit
    → (sends : Sends) × (send_work os req_size q st r 0
        ≡ ok (
          q,
          record st { posted = st.posted ++ (refusal st.abort_flag r ∷ []); sends = sends },
          pos 0,
        ))
      × HasSendRoom bound more sends
      × (length sends.slots ≡ length st.sends.slots + 1)
unfolding send_work
send_work-none os req_size bound more q st r grants h small =
    let buf = some (answer_buf st.abort_flag) in
    let (c, e, t, le) =
      track-within os req_size bound buf grants h.tracked h.within (omega (arith, h.room)) small in
    (
      added st.sends c buf,
      rw (send_no_work-track os req_size st r (grants 8) e) refl,
      HasSendRoom-added c buf h le t,
      length-added st.sends c buf,
    )

send_all-HasDealt :
    (os : Os) (req_size bound : ℕ) (q : Queue) (st : State) (requestors shares : List ℕ)
    (items : List (List ℕ))
    → ((n : ℕ) → os.grants n ≡ true)
    → HasSendRoom bound (length requestors * 2) st.sends
    → bound < int_limit
    → st.abort_flag ≡ false
    → Holds q items
    → length shares ≡ length requestors
    → sum shares ≤ length items
    → (q' : Queue) × (st' : State) × (send_all os req_size q st requestors shares ≡ ok (q', st'))
      × HasDealt q' st st' items requestors shares
unfolding send_all
send_all-HasDealt os req_size bound q st [] [] items grants room small calm h same le = (
  q,
  st,
  refl,
  record {
    parts = [];
    posts = [];
    rest = items;
    dealt = all_served items;
    holds = h;
    kept = omega arith;
    messages = sym (append-nil st.posted);
    tracked = room.tracked;
    each_tracked = omega arith;
  },
)
send_all-HasDealt os req_size bound q st [] (n ∷ shares) items grants room small calm h same le =
    absurd (omega (arith, same))
send_all-HasDealt os req_size bound q st (r ∷ requestors) [] items grants room small calm h same
      le =
    absurd (omega (arith, same))
send_all-HasDealt os req_size bound q st (r ∷ requestors) (zero ∷ shares) items grants room small
      calm h same le =
    let (sends, e, room', one) =
      send_work-none os req_size bound (length requestors * 2) q st r grants
        (HasSendRoom-mono (length requestors * 2 + 1) (omega arith) room) small in
    let st1 = record st { posted = st.posted ++ (refusal st.abort_flag r ∷ []); sends = sends } in
    let (q', st', run, d) =
      send_all-HasDealt os req_size bound q st1 requestors shares items grants room' small calm h
        (omega (arith, same)) (omega (arith, le)) in
    (
      q',
      st',
      send_all-step os req_size q q st st1 (pos 0) r 0 requestors shares e run,
      record {
        parts = [] ∷ d.parts;
        posts = refusal false r ∷ d.posts;
        rest = d.rest;
        dealt = no_share r d.dealt;
        holds = d.holds;
        kept = omega (arith, d.kept);
        messages = none-posts st st' r d.posts calm d.messages;
        tracked = d.tracked;
        each_tracked = omega (arith, d.each_tracked, one);
      },
    )
send_all-HasDealt os req_size bound q st (r ∷ requestors) (suc n ∷ shares) items grants room small
      calm h same le =
    let (m, header, bytes, q1, st1, some_, less, e, h1, s, room', p) =
      send_work-within os req_size bound (length requestors * 2) st r (suc n) grants
        (HasSendRoom-mono (length requestors * 2 + 2) (omega arith) room) small h (omega arith)
        (omega (arith, le)) in
    let (same_sends, posted, flag) = blacken_kept st r in
    let before : length (blacken st r).sends.slots ≡ length st.sends.slots =
      ap (λ x. length x.slots) same_sends in
    let short = length-drop m items in
    let (q', st', run, d) =
      send_all-HasDealt os req_size bound q1 st1 requestors shares (drop m items) grants room' small
        (s.abort_kept ∙ flag ∙ calm) h1 (omega (arith, same)) (omega (arith, le, less, short)) in
    (
      q',
      st',
      send_all-step os req_size q q1 st st1 (pos 0) r (suc n) requestors shares e run,
      record {
        parts = take m items ∷ d.parts;
        posts = transfer r header bytes d.posts;
        rest = d.rest;
        dealt = share r (suc n) m some_ less p d.dealt;
        holds = d.holds;
        kept = omega (arith, d.kept, less, short);
        messages = served-posts st st1 st' r header bytes d.posts s d.messages;
        tracked = d.tracked;
        each_tracked = omega (arith, d.each_tracked, s.each_tracked, before);
      },
    )

-- A whole answer. Where memory is granted, the sends in flight have room, no abort is under way, and the
-- queue holds an item, the strings of the queue are dealt to the requestors in order.
pub send_work_to_many-HasDealt :
    (os : Os) (req_size bound : ℕ) (equal : Bool) (rand : ℕ) {q : Queue} (st : State)
    (requestors : List ℕ) {items : List (List ℕ)}
    → ((n : ℕ) → os.grants n ≡ true)
    → HasSendRoom bound (length requestors * 2) st.sends
    → bound < int_limit
    → st.abort_flag ≡ false
    → Holds q items
    → 0 < length requestors
    → 0 < length items
    → (sizes : List ℕ) × (q' : Queue) × (st' : State) × (split : IsSplit
        (length requestors)
        q.count
        sizes)
      × (split_sizes equal rand (length requestors) q.count ≡ ok sizes)
      × (send_work_to_many os req_size equal rand q st requestors ≡ ok (q', st'))
      × HasDealt q' st st' items requestors split.given
unfolding send_work_to_many
send_work_to_many-HasDealt os req_size bound equal rand {q} st requestors {items} grants room small
      calm h some_ more =
    let (sizes, e, split) =
      split_sizes-IsSplit equal rand (length requestors) q.count some_ (omega (arith, h.counted)) in
    let (q', st', run, d) =
      send_all-HasDealt os req_size bound q st requestors split.given items grants room small calm h
        split.shares (omega (arith, split.total, h.counted)) in
    let dropped : drop 1 sizes ≡ split.given = ap (drop 1) split.parts in
    (
      sizes,
      q',
      st',
      split,
      e,
      rw (pos→==zero (length requestors) some_, grants ((length requestors + 1) * 4), e, dropped)
          run,
      d,
    )
