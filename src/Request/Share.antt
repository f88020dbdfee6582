-- ===== src/Request/Share.antt =====
-- A rank that has work to give shares it among all who ask.
use libcircle.Prelude.{
  ℕ, ◌+◌, ◌*◌, ◌≤◌, ◌<◌, ◌≡◌, Bool, true, false, ◌||◌, List, ◌++◌, arith, length, le→leb, leb, ◌==◌,
  pos→==zero,
}
use libcircle.C.{ok, int_limit, Os}
use libcircle.Queue.{Queue}
use libcircle.Queue.Rep.{Holds}
use libcircle.Sends.Track.{IsTracked, HasSendRoom}
use libcircle.Spread.{split_sizes}
use libcircle.Spread.Share.{IsSplit}
use libcircle.State.{Post, State}
use libcircle.Transfer.Dealt.{Dealt, joined, Dealt-joined}
use libcircle.Transfer.Many.{send_work_to_many-HasDealt}
use libcircle.Request.{workreq_check}

-- What the requestors get, in which messages, and what stays.
pub record HasShared (q' : Queue) (st st' : State) (items : List (List ℕ))
    (requestors sizes : List ℕ) : Type 0 where
  pub split : IsSplit (length requestors) (length items) sizes
  pub parts : List (List (List ℕ))
  pub posts : List Post
  pub rest : List (List ℕ)
  pub dealt : Dealt items requestors split.given parts posts rest
  pub whole : joined parts ++ rest ≡ items
  pub one_each : length parts ≡ length requestors
  pub keeps : split.own ≤ length rest
  pub holds : Holds q' rest
  pub messages : st'.posted ≡ st.posted ++ posts
  pub tracked : IsTracked st'.sends
  pub each_tracked : length st'.sends.slots ≡ length st.sends.slots + length posts

no_work : (a b c : Bool) → (a || false || b || c) ≡ false → (a ≡ false) × (b ≡ false)
no_work a b c e = ground arith

is_pos : (n : ℕ) → (n == 0) ≡ false → 0 < n
is_pos n e = ground arith

-- A rank with work that is not in its cleanup phase, not told to abort and has few sends under way
-- divides its strings, top first, among the requestors in their order, by the split of the options: each
-- gets at most its share in two messages that hold just its strings, or the message that there is
-- none where its share is empty; the parts and what stays are the strings that the queue held, and at
-- least its own share stays. The send of each message is tracked, in a cell of its own, and
-- the cells stay within their arrays. There are from one to as many requestors as ranks,
-- memory is granted, and the arrays of sends have room within a bound that fits an int.
pub workreq_check-HasShared :
    (os : Os) (req_size bound : ℕ) (equal : Bool) (rand : ℕ) {q : Queue} (st : State)
    (requestors : List ℕ) {items : List (List ℕ)}
    → ((n : ℕ) → os.grants n ≡ true)
    → HasSendRoom bound (length requestors * 2) st.sends
    → bound < int_limit
    → Holds q items
    → 0 < length requestors
    → length requestors ≤ st.size
    → (q.count == 0 || false || st.abort_flag || leb (4 * st.size) (length st.sends.slots)) ≡ false
    → (sizes : List ℕ) × (q' : Queue) × (st' : State) × (split_sizes equal rand
          (length requestors)
          (length items)
        ≡ ok sizes)
      × (workreq_check os req_size equal false rand q st requestors ≡ ok (q', st'))
      × HasShared q' st st' items requestors sizes
unfolding workreq_check
workreq_check-HasShared os req_size bound equal rand {q} st requestors {items} grants room small h
      some_ few e =
    let (more, calm) =
      no_work (q.count == 0) st.abort_flag (leb (4 * st.size) (length st.sends.slots)) e in
    let (sizes, q', st', split, spread, run, d) =
      send_work_to_many-HasDealt os req_size bound equal rand st requestors grants room small calm h
        some_ (omega (arith, h.counted, is_pos q.count more)) in
    let (whole, one_each) = Dealt-joined d.dealt in
    (
      sizes,
      q',
      st',
      rw h.counted at spread,
      rw (le→leb (length requestors) st.size few, pos→==zero (length requestors) some_, e) run,
      record {
        split = record {
          own = split.own;
          given = split.given;
          parts = split.parts;
          keeps = split.keeps;
          shares = split.shares;
          total = omega (arith, split.total, h.counted);
        };
        parts = d.parts;
        posts = d.posts;
        rest = d.rest;
        dealt = d.dealt;
        whole = whole;
        one_each = one_each;
        keeps = omega (arith, d.kept, split.total, h.counted);
        holds = d.holds;
        messages = d.messages;
        tracked = d.tracked;
        each_tracked = d.each_tracked;
      },
    )
