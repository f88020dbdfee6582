-- ===== src/Request/Ask.antt =====
-- A rank never asks itself for work, and has at most one request on its way.
use libcircle.Prelude.{
  ℕ, ◌+◌, ◌%◌, ◌<◌, ◌≡◌, ◌≢◌, refl, ◌∙◌, Bool, true, false, Option, none, some, List, [], ◌∷◌, ◌++◌,
  arith, ◌==◌, inl, inr, Bool-cases, lt→ltb, ℤ, pos,
}
use native.Mathlib.Nat.{mod-lt}
use libcircle.C.{Run, ok, ◌>>=◌, u32_mod, Os}
use libcircle.Queue.{Queue}
use libcircle.Sends.{Payload}
use libcircle.State.{Tag, State, post}
use libcircle.Request.{
  pick, get_next_proc, test_request, ask_rank, ask, receive_reply, request_work,
}

-- Some draw is not the rank itself.
pub data Hits (rank size : ℕ) : List ℕ → Type 0 where
  here : {r : ℕ} {draws : List ℕ} → r % size ≢ rank → Hits rank size (r ∷ draws)
  later : {r : ℕ} {draws : List ℕ} → Hits rank size draws → Hits rank size (r ∷ draws)

ne→== : (a b : ℕ) → a ≢ b → (a == b) ≡ false
ne→== a b n = ground arith

==→ne : (a b : ℕ) → (a == b) ≡ false → a ≢ b
==→ne a b e = ground arith

pub pick-other :
    (st : State) (draws : List ℕ)
    → 0 < st.size
    → Hits st.rank st.size draws
    → (p : ℕ) × (pick st draws ≡ ok (record st { next_processor = some p }))
      × (p < st.size)
      × (p ≢ st.rank)
unfolding pick
pick-other st [] h hits = elim hits [ ]
pick-other st (r ∷ draws) h (here miss) =
    (r % st.size, rw (ne→== (r % st.size) st.rank miss) refl, mod-lt r h, miss)
pick-other st (r ∷ draws) h (later hits) =
    let (p, e, lt, other) = pick-other st draws h hits in
    elim (Bool-cases (r % st.size == st.rank)) [
      | inl same ↦ (p, rw (same, e) refl, lt, other)
      | inr new ↦ (r % st.size, rw new refl, mod-lt r h, ==→ne (r % st.size) st.rank new)
    ]

pub get_next_proc-other :
    (st : State) (draws : List ℕ)
    → 1 < st.size
    → Hits st.rank st.size draws
    → (p : ℕ) × (get_next_proc st draws ≡ ok (record st { next_processor = some p }))
      × (p < st.size)
      × (p ≢ st.rank)
unfolding get_next_proc
get_next_proc-other st draws several hits =
    let (p, e, lt, other) = pick-other st draws (omega arith) hits in
    (p, rw (lt→ltb 1 st.size several) e, lt, other)

-- A rank of several that has nothing on its way, is not told to stop, and has picked the rank
-- `source` to ask.
pub record CanAsk (st : State) (source : ℕ) : Type 0 where
  pub several : 1 < st.size
  pub no_abort : st.abort_flag ≡ false
  pub not_asked : st.work_requested ≡ false
  pub nothing_sent : st.request_pending ≡ false
  pub picked : st.next_processor ≡ some source

-- The rank after it has asked `source`, and picked `next` to ask after it.
abbrev pub asked : State → (source next : ℕ) → State
asked st source next = record (post st source Tag.work_request Payload.empty) {
  local_work_requested = (st.local_work_requested + 1) % u32_mod;
  request_pending = true;
  work_requested = true;
  work_requested_rank = source;
  next_processor = some next;
}

ask-rank :
    (st : State) (draws : List ℕ) {source : ℕ}
    → st.next_processor ≡ some source
    → ask st draws ≡ ask_rank st source draws
unfolding ask
ask-rank st draws e = rw e refl

ask_rank-asked :
    (st : State) (source : ℕ) (draws : List ℕ)
    → 1 < st.size
    → Hits st.rank st.size draws
    → (next : ℕ) × (ask_rank st source draws ≡ ok (asked st source next))
      × (next < st.size)
      × (next ≢ st.rank)
unfolding ask_rank
ask_rank-asked st source draws several hits =
    get_next_proc-other
      (record (post st source Tag.work_request Payload.empty) {
        local_work_requested = (st.local_work_requested + 1) % u32_mod;
        request_pending = true;
        work_requested = true;
        work_requested_rank = source;
      })
      draws several hits

request_work-free :
    (os : Os) (req_size : ℕ) (tested : Bool) (reply : Option (List ℤ × List ℕ)) (draws : List ℕ)
    (q : Queue) (st : State)
    → st.request_pending ≡ false
    → st.work_requested ≡ false
    → st.abort_flag ≡ false
    → request_work os req_size false tested reply draws q st
      ≡ (ask st draws >>= λ st'. ok (q, st', pos 0))
unfolding request_work test_request
request_work-free os req_size tested reply draws q st p w a = rw (p, w, a) refl

request_work-waits :
    (os : Os) (req_size : ℕ) (cleanup tested : Bool) (draws : List ℕ) (q : Queue) (st : State)
    → st.work_requested ≡ true
    → request_work os req_size cleanup tested none draws q st
      ≡ ok (q, (test_request st tested).0, pos 0)
unfolding request_work test_request receive_reply
request_work-waits os req_size cleanup tested draws q st w = elim (Bool-cases st.request_pending) [
  | inl p ↦ rw (p, w) refl
  | inr p ↦ rw (p, w) refl
]

-- Calls that find no reply, one after the other: each with its phase, what MPI_Test answers, and the
-- numbers that are drawn.
pub calls : Os → (req_size : ℕ) → List (Bool × Bool × List ℕ) → Queue → State → Run (Queue × State)
calls os req_size [] q st = ok (q, st)
calls os req_size ((cleanup, tested, draws) ∷ rest) q st = do
  (q', st', rc) ← request_work os req_size cleanup tested none draws q st
  calls os req_size rest q' st'

-- What one request leaves: a message to the rank that was picked, which is not this rank, another
-- rank picked for the next, and as long as no reply comes, no further message.
pub record Asked (os : Os) (req_size : ℕ) (q : Queue) (st : State) (source : ℕ) (st' : State)
    : Type 0 where
  pub message :
      st'.posted
      ≡ st.posted
        ++ (record { dest = source; tag = Tag.work_request; payload = Payload.empty } ∷ [])
  pub next : ℕ
  pub picked : st'.next_processor ≡ some next
  pub exists : next < st'.size
  pub other : next ≢ st'.rank
  pub silent :
      (rest : List (Bool × Bool × List ℕ))
      → (st'' : State) × (calls os req_size rest q st' ≡ ok (q, st''))
        × (st''.posted ≡ st'.posted)
        × (st''.work_requested ≡ true)

test_request_kept :
    (st : State) (tested : Bool)
    → ((test_request st tested).0.posted ≡ st.posted)
      × ((test_request st tested).0.work_requested ≡ st.work_requested)
unfolding test_request
test_request_kept st tested = elim (Bool-cases st.request_pending) [
  | inl p ↦ rw p (refl, refl)
  | inr p ↦ rw p (refl, refl)
]

calls-silent :
    (os : Os) (req_size : ℕ) (rest : List (Bool × Bool × List ℕ)) (q : Queue) (st : State)
    → st.work_requested ≡ true
    → (st' : State) × (calls os req_size rest q st ≡ ok (q, st'))
      × (st'.posted ≡ st.posted)
      × (st'.work_requested ≡ true)
unfolding calls
calls-silent os req_size [] q st w = (st, refl, refl, w)
calls-silent os req_size ((cleanup, tested, draws) ∷ rest) q st w =
    let (same, waiting) = test_request_kept st tested in
    let (st', run, same', w') =
      calls-silent os req_size rest q (test_request st tested).0 (waiting ∙ w) in
    (st', rw (request_work-waits os req_size cleanup tested draws q st w) run, same' ∙ same, w')

pub request_work-Asked :
    (os : Os) (req_size : ℕ) (tested : Bool) (reply : Option (List ℤ × List ℕ)) (draws : List ℕ)
    (q : Queue) (st : State) {source : ℕ}
    → CanAsk st source
    → Hits st.rank st.size draws
    → (st' : State) × (request_work os req_size false tested reply draws q st ≡ ok (q, st', pos 0))
      × Asked os req_size q st source st'
request_work-Asked os req_size tested reply draws q st {source} c hits =
    let (next, e, lt, other) = ask_rank-asked st source draws c.several hits in
    let st' = asked st source next in
    (
      st',
      rw
          (
            request_work-free os req_size tested reply draws q st c.nothing_sent c.not_asked
                c.no_abort,
            ask-rank st draws c.picked,
            e,
          )
          refl,
      record {
        message = refl;
        next = next;
        picked = refl;
        exists = lt;
        other = other;
        silent = λ rest. calls-silent os req_size rest q st' refl;
      },
    )
