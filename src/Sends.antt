-- ===== src/Sends.antt =====
-- The outstanding non-blocking sends of libcircle/token.c: CIRCLE_worksend_track, _check, _wait and
-- _free. The arrays `send_reqs` and `send_bufs` are one list of their first `send_count` cells.
-- Which sends MPI has completed is a parameter.
pub mod Reap
pub mod Track
use libcircle.Prelude.{
  ℕ, zero, suc, ◌+◌, ◌-◌, ◌*◌, ◌%◌, Bool, true, false, not, ◌&&◌, Option, none, some, List, [], ◌∷◌,
  ◌++◌, map, ltb, ◌==◌, if◌then◌else◌, length, get_elem?, set, take, ℤ,
}
use libcircle.C.{Run, ok, aborted, ◌>>=◌, ◌>>◌, require, deref, int_limit, size_mod, Os}

-- What a message carries: ints, characters, or nothing.
pub data Payload : Type 0 where
  ints : List ℤ → Payload
  chars : List ℕ → Payload
  empty : Payload

-- An outstanding send: its request, and the buffer that backs it, with what it holds.
pub record Send : Type 0 where
  pub req : ℕ
  pub buf : Option Payload

-- The fields `send_*` of `CIRCLE_state_st`, and the number that MPI gives the next request.
pub record Sends : Type 0 where
  pub slots : List Send
  pub capacity : ℕ
  pub next_req : ℕ

-- sizeof(MPI_Request), which MPI chooses, is the parameter `req_size`.
grow : Os → (req_size : ℕ) → Sends → Run Sends
grow os req_size s =
    let capacity = if ltb 0 s.capacity then s.capacity * 2 else 32 in
    do
      require (ltb capacity int_limit)
      if os.grants (capacity * req_size % size_mod) && os.grants (capacity * 8)
          then ok (record s { capacity = capacity })
          else aborted

-- `MPI_Isend` gives the request, and the tracking keeps it with its buffer.
pub track : Os → (req_size : ℕ) → Sends → Option Payload → Run Sends
track os req_size s buf = do
  s' ← if length s.slots == s.capacity then grow os req_size s else ok s
  ok (record s' {
    slots = s'.slots ++ (record { req = s'.next_req; buf = buf } ∷ []);
    next_req = s'.next_req + 1;
  })

-- The last cell is put into the cell `i`, and the list is one shorter.
pub fill_slot : ℕ → List Send → Run (List Send)
fill_slot i slots = do
  last ← deref (get_elem? slots (length slots - 1))
  ok (take (length slots - 1) (set slots i last))

-- The walk from the cell `i - 1` down to the first. `done` is what MPI_Test answers. The second
-- part of the result is the buffers freed, in order.
pub reap : (done : ℕ → Bool) → ℕ → List Send → Run (List Send × List (Option Payload))
reap done zero slots = ok (slots, [])
reap done (suc i) slots =
    let kept = reap done i slots in
    let released = λ (s : Send). (do
      slots' ← fill_slot i slots
      (rest, freed) ← reap done i slots'
      ok (rest, s.buf ∷ freed)) in
    deref (get_elem? slots i) >>= λ s. if done s.req then released s else kept

pub check : (done : ℕ → Bool) → Sends → Run (Sends × List (Option Payload))
check done s = do
  (slots, freed) ← reap done (length s.slots) s.slots
  ok (record s { slots = slots }, freed)

-- MPI_Waitall returns when every send has completed; then all buffers are freed.
unfoldable pub wait : Sends → Sends × List (Option Payload)
wait s = (record s { slots = [] }, map (λ (t : Send). t.buf) s.slots)

-- The arrays are given back; the buffers of sends that are left are not freed.
pub free : Sends → Sends
free s = record s { slots = []; capacity = 0 }
