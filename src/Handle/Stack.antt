-- ===== src/Handle/Stack.antt =====
-- The specification of the handle, a stack of strings, and that the queue implements it.
use libcircle.Prelude.{
  ℕ, suc, ◌+◌, ◌*◌, ◌%◌, ◌≤◌, ◌<◌, ◌≡◌, refl, true, none, some, List, [], ◌∷◌, arith, length, All,
  pos, minus_one,
}
use libcircle.C.{ok, int_limit, u32_mod, size_mod, Os}
use libcircle.C.Strings.{NoZero}
use libcircle.Queue.{Queue, max_string_len}
use libcircle.Queue.Rep.{Holds, IsShort, HasRoom}
use libcircle.Queue.Push.{Pushed, push-Holds}
use libcircle.Queue.Pop.{popped, popped-head, pop-Holds, pop-empty}
use libcircle.Handle.{
  enqueue, dequeue, local_queue_size, Call, put, get, size, Reply, status, item, number, run,
}

abbrev pub Stack : Type 0
Stack = List (List ℕ)

-- What a client of a stack sees, and the stack that is left.
pub spec : Stack → List Call → Stack × List Reply
spec s [] = (s, [])
spec s (put x ∷ calls) = let (t, r) = spec (x ∷ s) calls in (t, status (pos 0) ∷ r)
spec [] (get ∷ calls) = let (t, r) = spec [] calls in (t, item minus_one none ∷ r)
spec (x ∷ s) (get ∷ calls) = let (t, r) = spec s calls in (t, item (pos 0) (some x) ∷ r)
spec s (size ∷ calls) = let (t, r) = spec s calls in (t, number (length s) ∷ r)

-- A call puts only strings that the queue accepts.
abbrev pub Accepted : Call → Type 0
Accepted (put x) = NoZero x × IsShort x
Accepted get = Unit
Accepted size = Unit

-- The queue can take `n` more strings within its integer widths, and memory is granted.
pub record HasRoomFor (os : Os) (n : ℕ) (q : Queue) : Type 0 where
  pub grants : (k : ℕ) → os.grants k ≡ true
  pub step_pos : 0 < os.page_size * 4096 % size_mod
  pub strings_room : q.count + n + 4096 ≤ int_limit
  pub bytes_room : q.head + n * max_string_len + os.page_size * 4096 % size_mod ≤ size_mod

pub HasRoomFor-once : {os : Os} {n : ℕ} {q : Queue} → HasRoomFor os (suc n) q → HasRoom os q
HasRoomFor-once room = record {
  step_pos = room.step_pos;
  strings_room = omega (arith, room.strings_room);
  bytes_room = omega (arith, room.bytes_room);
}

-- Room is left after a call that leaves the queue no larger.
pub HasRoomFor-shrink :
    {os : Os} {n : ℕ} {q : Queue} (q' : Queue)
    → HasRoomFor os (suc n) q
    → q'.count ≤ q.count
    → q'.head ≤ q.head
    → HasRoomFor os n q'
HasRoomFor-shrink q' room c b = record {
  grants = room.grants;
  step_pos = room.step_pos;
  strings_room = omega (arith, room.strings_room);
  bytes_room = omega (arith, room.bytes_room);
}

pub HasRoomFor-push :
    {os : Os} {n : ℕ} {q q' : Queue} {x : List ℕ} {items : List (List ℕ)}
    → HasRoomFor os (suc n) q
    → Holds q items
    → IsShort x
    → Pushed q x items q'
    → HasRoomFor os n q'
HasRoomFor-push room h short p = record {
  grants = room.grants;
  step_pos = room.step_pos;
  strings_room = omega (arith, room.strings_room, p.holds.counted, h.counted);
  bytes_room = omega (arith, room.bytes_room, p.head_moved, short);
}

-- A run of the queue that answers as `spec` does, and stands for the stack that `spec` leaves.
pub record Implements (os : Os) (q : Queue) (s : Stack) (calls : List Call) : Type 0 where
  pub last : Queue
  pub runs : run os q calls ≡ ok (last, (spec s calls).1)
  pub holds : Holds last (spec s calls).0

-- No sequence of accepted calls tells the queue from a stack of strings: on a queue that holds the
-- stack and has room for as many strings as there are calls, the run returns without a fault, the
-- replies are those of the stack, and the queue holds the stack that is left.
pub run-Implements :
    (os : Os) (calls : List Call) {q : Queue} {s : Stack}
    → Holds q s
    → HasRoomFor os (length calls) q
    → All Accepted calls
    → Implements os q s calls
unfolding run spec enqueue dequeue local_queue_size
run-Implements os [] {q} h room a = record { last = q; runs = refl; holds = h }
run-Implements os (put x ∷ calls) {q} h room a =
    let (q', e, p) = push-Holds os x h (HasRoomFor-once room) a.0.0 a.0.1 room.grants in
    let rest = run-Implements os calls p.holds (HasRoomFor-push room h a.0.1 p) a.1 in
    record { last = rest.last; runs = rw (e, rest.runs); holds = rest.holds }
run-Implements os (get ∷ calls) {q} {s = []} h room a =
    let same = HasRoomFor-shrink q room (omega arith) (omega arith) in
    let rest = run-Implements os calls h same a.1 in
    record { last = rest.last; runs = rw (pop-empty true h, rest.runs); holds = rest.holds }
run-Implements os (get ∷ calls) {q} {s = x ∷ s} h room a =
    let (e, h') = pop-Holds h in
    let less = HasRoomFor-shrink (popped q h.offsets) room (omega arith) (popped-head h) in
    let rest = run-Implements os calls h' less a.1 in
    record { last = rest.last; runs = rw (e, rest.runs); holds = rest.holds }
run-Implements os (size ∷ calls) {q} {s} h room a =
    let same = HasRoomFor-shrink q room (omega arith) (omega arith) in
    let rest = run-Implements os calls h same a.1 in
    let exact : q.count % u32_mod ≡ length s = omega (arith, h.counted, h.slots, h.few) in
    record { last = rest.last; runs = rw (rest.runs, exact); holds = rest.holds }
