-- ===== src/Handle.antt =====
-- The interface that callbacks use, `CIRCLE_handle` of libcircle/libcircle.h, with the three
-- functions of libcircle/worker.c that fill it, and a client's calls of them in order.
pub mod Stack
use libcircle.Prelude.{ℕ, ◌%◌, true, Option, none, some, List, [], ◌∷◌, ℤ}
use libcircle.C.{Run, ok, ◌>>=◌, u32_mod, Os}
use libcircle.Queue.{Queue, push, pop}

-- `none` is a NULL pointer.
pub enqueue : Os → Queue → Option (List ℕ) → Run (Queue × ℤ)
enqueue os q element = push os q element

-- The client gives a buffer.
pub dequeue : Queue → Run (Queue × ℤ × Option (List ℕ))
dequeue q = pop q true

pub local_queue_size : Queue → ℕ
local_queue_size q = q.count % u32_mod

pub data Call : Type 0 where
  put : List ℕ → Call
  get : Call
  size : Call

-- What a client sees of a call.
pub data Reply : Type 0 where
  status : ℤ → Reply
  item : ℤ → Option (List ℕ) → Reply
  number : ℕ → Reply

-- The calls in order. A refused `put` is answered with its status.
pub run : Os → Queue → List Call → Run (Queue × List Reply)
run os q [] = ok (q, [])
run os q (put x ∷ calls) = do
  (q', rc) ← enqueue os q (some x)
  (q'', replies) ← run os q' calls
  ok (q'', status rc ∷ replies)
run os q (get ∷ calls) = do
  (q', rc, out) ← dequeue q
  (q'', replies) ← run os q' calls
  ok (q'', item rc out ∷ replies)
run os q (size ∷ calls) = do
  (q', replies) ← run os q calls
  ok (q', number (local_queue_size q) ∷ replies)
