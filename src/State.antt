-- ===== src/State.antt =====
-- The state of a rank, `CIRCLE_state_st` of libcircle/token.h, with the global CIRCLE_ABORT_FLAG, the
-- user's data of CIRCLE_INPUT_ST while the worker runs, and a record of the messages that the rank
-- has handed to MPI, in order. `work_outstanding` counts transfers without the width of an int.
pub mod Isend
pub mod Keeps
use libcircle.Prelude.{ℕ, ◌+◌, Bool, Option, none, some, List, [], ◌∷◌, ◌++◌, ℤ, pos, negsuc}
use libcircle.C.{Run, ok, ◌>>=◌, Os}
use libcircle.Tree.{Tree}
use libcircle.Sends.{Payload, Sends, track}

-- The message tags of `enum tags`.
pub data Tag : Type 0 where
  work_request work_reply work_receipt token reduce barrier term : Tag
  abort_request abort_reply abort_reduce : Tag

-- WHITE, BLACK and TERMINATE of `enum tags`, the colors of a process and of the token.
pub data Color : Type 0 where
  white black terminate : Color

-- PAYLOAD_ABORT, which is -32.
abbrev pub payload_abort : ℤ
payload_abort = negsuc 31

-- A message handed to MPI.
pub record Post : Type 0 where
  pub dest : ℕ
  pub tag : Tag
  pub payload : Payload

-- The fields `token_*`. `sending` says that `token_send_req` is not MPI_REQUEST_NULL.
pub record TokenState : Type 0 where
  pub is_local : Bool
  pub proc : Color
  pub buf : Color
  pub src : ℕ
  pub dest : ℕ
  pub sending : Bool

-- The fields `offsets_*`: the length of the array of received ints, and its cells.
pub record Offsets : Type 0 where
  pub count : ℕ
  pub recv_buf : Option (ℕ → ℤ)

-- The fields `barrier_*`.
pub record BarrierState : Type 0 where
  pub started : Bool
  pub up : Bool
  pub replies : ℕ

-- The fields `term_*`; `flag` is the term_flag of the tree-based termination.
pub record TermState : Type 0 where
  pub flag : Bool
  pub up : Bool
  pub replies : ℕ

-- The fields `reduce_*` but for the times. `valid` says that the first cell of `reduce_buf` is
-- MSG_VALID; the second cell is `total`, the third `bytes`.
pub record ReduceState : Type 0 where
  pub enabled : Bool
  pub outstanding : Bool
  pub replies : ℕ
  pub valid : Bool
  pub total : ℕ
  pub bytes : ℤ

-- The fields `reduce_buf` and `reduce_buf_size` of CIRCLE_INPUT_ST: a copy of the bytes that the user
-- gave, or NULL, and their number.
pub record UserData : Type 0 where
  pub buf : Option (List ℕ)
  pub size : ℕ

-- The fields `abort_*`. `active` is `abort_state`; of the array `abort_req` the length is kept.
pub record AbortState : Type 0 where
  pub active : Bool
  pub outstanding : Bool
  pub num_req : ℕ

-- `next_processor` is `none` for MPI_PROC_NULL. `request_pending` says that `work_request_req` is
-- not MPI_REQUEST_NULL.
pub record State : Type 0 where
  pub rank : ℕ
  pub size : ℕ
  pub token : TokenState
  pub offsets : Offsets
  pub next_processor : Option ℕ
  pub work_requested : Bool
  pub work_requested_rank : ℕ
  pub request_pending : Bool
  pub sends : Sends
  pub tree : Tree
  pub reduce : ReduceState
  pub barrier : BarrierState
  pub term_tree_enabled : Bool
  pub work_outstanding : ℕ
  pub term : TermState
  pub user : UserData
  pub abort : AbortState
  pub abort_flag : Bool
  pub local_objects_processed : ℕ
  pub local_work_requested : ℕ
  pub local_no_work_received : ℕ
  pub posted : List Post

-- A message leaves.
abbrev pub post : State → ℕ → Tag → Payload → State
post st dest tag payload = record st {
  posted = st.posted ++ (record { dest = dest; tag = tag; payload = payload } ∷ []);
}

-- MPI_Isend of a message, with the tracking of its request and of its buffer.
pub isend : Os → (req_size : ℕ) → State → ℕ → Tag → Payload → Option Payload → Run State
isend os req_size st dest tag payload buf = do
  sends ← track os req_size st.sends buf
  ok (record (post st dest tag payload) { sends = sends })
