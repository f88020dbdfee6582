-- ===== src/Reduction/Keeps.antt =====
-- The progress of a reduction keeps what `Keeps` names.
use libcircle.Prelude.{
  ℕ, Bool, false, ◌&&◌, ◌||◌, Option, none, some, List, [], ◌∷◌, if◌then◌else◌, is_none, ◌==◌,
}
use libcircle.C.{ok, ◌>>=◌, deref, Os}
use libcircle.C.Every.{Every, Every-bind, Every-after, Every-if, Every-weaken}
use libcircle.Sends.{Payload}
use libcircle.State.{Tag, State}
use libcircle.State.Keeps.{Keeps, keeps, Keeps-trans, Keeps-if}
use libcircle.Transfer.{to_int}
use libcircle.Collective.{send_to}
use libcircle.Collective.Keeps.{send_to-Keeps, send_down-Keeps}
use libcircle.Reduction.{
  Callbacks, Reply, Delivery, add_total, receive_data, call_init, call_op, is_positive, numbers,
  send_partial, deliver, check_child, check_children, check_finish, check_outstanding, begin_reduce,
  decline_reduce, check_start, reduce_check,
}

abbrev pub KeepsFirst : State → State × Delivery → Type 0
KeepsFirst st r = Keeps st r.0

send_partial-Keeps : (st : State) (whole : Bool) → Every (Keeps st) (send_partial st whole)
unfolding send_partial Every
send_partial-Keeps st whole =
    let bytes = to_int st.user.size in
    let st1 = record st { reduce = record (st.reduce) { bytes = bytes } } in
    let st2 = send_to st1 st1.tree.parent_rank Tag.reduce (numbers st1.reduce) in
    let k2 : Keeps st st2 =
      send_to-Keeps st1 st1.tree.parent_rank Tag.reduce (numbers st1.reduce) in
    Every-if (Keeps st) (is_positive bytes && whole) _ (ok st2)
      (Every-after (Keeps st) (deref st2.user.buf) _ λ contents.
        Keeps-trans st st2 (send_to st2 st2.tree.parent_rank Tag.reduce (Payload.chars contents)) k2
          (send_to-Keeps st2 st2.tree.parent_rank Tag.reduce (Payload.chars contents)))
      k2

child-Keeps :
    (os : Os) (cbs : Callbacks) (st : State) (reply : Reply)
    → Every (Keeps st) (check_child os cbs st reply)
unfolding check_child Every
child-Keeps os cbs st reply =
    Every-if (Keeps st) reply.valid _ _
      (Every-after (Keeps st) (add_total st.reduce.total reply.total) _ λ total.
        Every-after (Keeps st) (receive_data os reply) _ λ inbuf.
          Every-after (Keeps st)
            (if st.reduce.valid then call_op cbs st.user inbuf reply.bytes else ok st.user) _
            λ user. keeps st)
      (keeps st)

children-Keeps :
    (os : Os) (cbs : Callbacks) (st : State) (found : List (Option Reply))
    → Every (Keeps st) (check_children os cbs st found)
unfolding check_children Every
children-Keeps os cbs st [] = keeps st
children-Keeps os cbs st (none ∷ found) = children-Keeps os cbs st found
children-Keeps os cbs st (some reply ∷ found) =
    Every-bind (Keeps st) (Keeps st) (check_child os cbs st reply) _ (child-Keeps os cbs st reply)
      λ st1 k1.
        Every-weaken (Keeps st1) (Keeps st) (check_children os cbs st1 found)
          (children-Keeps os cbs st1 found) λ st2 k2. Keeps-trans st st1 st2 k1 k2

finish-Keeps :
    (cbs : Callbacks) (st : State) (count : ℕ) → Every (KeepsFirst st) (check_finish cbs st count)
unfolding check_finish Every
finish-Keeps cbs st count = Every-after (KeepsFirst st) (add_total st.reduce.total count) _ λ total.
    let st1 = record st { reduce = record (st.reduce) { total = total } } in
    let at_root = ok (st1, if st1.reduce.valid then deliver cbs st1.user else none) in
    let below = send_partial st1 st1.reduce.valid >>= λ st'. ok (st', none) in
    Every-bind (KeepsFirst st) (KeepsFirst st)
      (if is_none st1.tree.parent_rank then at_root else below) _
      (Every-if (KeepsFirst st) (is_none st1.tree.parent_rank) at_root below (keeps st) (
        Every-bind (Keeps st1) (KeepsFirst st) (send_partial st1 st1.reduce.valid) _
          (send_partial-Keeps st1 st1.reduce.valid) λ st' k. k))
      λ (st2, delivery) k. k

outstanding-Keeps :
    (os : Os) (cbs : Callbacks) (st : State) (count : ℕ) (found : List (Option Reply))
    → Every (KeepsFirst st) (check_outstanding os cbs st count found)
unfolding check_outstanding Every
outstanding-Keeps os cbs st count found =
    Every-bind (Keeps st) (KeepsFirst st) (check_children os cbs st found) _
      (children-Keeps os cbs st found)
      λ st1 k1.
        Every-if (KeepsFirst st) (st1.reduce.replies == st1.tree.children)
          (check_finish cbs st1 count) (ok (st1, none))
          (Every-weaken (KeepsFirst st1) (KeepsFirst st) (check_finish cbs st1 count)
            (finish-Keeps cbs st1 count) λ r k. Keeps-trans st st1 r.0 k1 k)
          k1

begin-Keeps : (cbs : Callbacks) (st : State) → Every (Keeps st) (begin_reduce cbs st)
unfolding begin_reduce Every
begin-Keeps cbs st =
    Every-after (Keeps st) (call_init cbs st.user) _
      λ user. send_down-Keeps Tag.reduce Payload.empty st.tree.children 0 _

decline-Keeps : (st : State) → Keeps st (decline_reduce st)
unfolding decline_reduce
decline-Keeps st =
    let st1 = record st { reduce = record (st.reduce) { valid = false } } in
    Keeps-if (is_none st.tree.parent_rank) st st _ (keeps st)
      (send_to-Keeps st1 st.tree.parent_rank Tag.reduce (numbers st1.reduce))

start-Keeps :
    (cbs : Callbacks) (st : State) (cleanup due kicked : Bool)
    → Every (Keeps st) (check_start cbs st cleanup due kicked)
unfolding check_start Every
start-Keeps cbs st cleanup due kicked =
    let start = (due || cleanup) && (is_none st.tree.parent_rank || kicked) in
    Every-if (Keeps st) (start && cleanup) (ok (decline_reduce st)) _ (decline-Keeps st)
      (Every-if (Keeps st) start (begin_reduce cbs st) (ok st) (begin-Keeps cbs st) (keeps st))

pub reduce_check-Keeps :
    (os : Os) (cbs : Callbacks) (st : State) (count : ℕ) (cleanup due kicked : Bool)
    (found : List (Option Reply))
    → Every (KeepsFirst st) (reduce_check os cbs st count cleanup due kicked found)
unfolding reduce_check Every
reduce_check-Keeps os cbs st count cleanup due kicked found =
    Every-if (KeepsFirst st) st.reduce.outstanding (check_outstanding os cbs st count found) _
      (outstanding-Keeps os cbs st count found)
      (Every-bind (Keeps st) (KeepsFirst st) (check_start cbs st cleanup due kicked) _
        (start-Keeps cbs st cleanup due kicked) λ st' k. k)
