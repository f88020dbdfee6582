-- ===== src/Reduction.antt =====
-- The reductions of user data in libcircle/token.c: CIRCLE_reduce_check and CIRCLE_reduce_sync.
-- The clock, the probes and the messages received are parameters: `due` says that the time for the
-- next reduction has come.
pub mod Sync
pub mod Sum
pub mod Keeps
pub mod Stale
pub mod Progress
use libcircle.Prelude.{
  ℕ, zero, suc, ◌+◌, ◌^◌, Bool, true, false, ◌&&◌, ◌||◌, not, Option, none, some, List, [], ◌∷◌,
  ◌++◌, leb, ltb, ◌==◌, if◌then◌else◌, is_none, length, ℤ, pos, negsuc,
}
use libcircle.C.{Run, ok, fault, ◌>>=◌, ◌>>◌, require, deref, Os}
use libcircle.Input.{ReduceInit, ReduceOp}
use libcircle.Sends.{Payload}
use libcircle.State.{Tag, ReduceState, UserData, State}
use libcircle.Transfer.{to_int}
use libcircle.Tree.{Tree}
use libcircle.Collective.{send_to, send_down}

-- The user's functions, where they are set.
pub record Callbacks : Type 0 where
  pub init : Option ReduceInit
  pub op : Option ReduceOp
  pub fini : Bool

-- A message of a child: whether its first number is MSG_VALID, its two other numbers, and the bytes
-- of the message that follows where the last number is not 0.
pub record Reply : Type 0 where
  pub valid : Bool
  pub total : ℕ
  pub bytes : ℕ
  pub chars : List ℕ

-- What the root gives to the user's function for the result: the data and its size.
abbrev pub Delivery : Type 0
Delivery = Option (Option (List ℕ) × ℕ)

-- MSG_VALID and MSG_INVALID of `enum tags`.
abbrev pub validity : Bool → ℤ
validity true = pos 10
validity false = pos 11

-- A sum of long long ints, whose overflow is undefined.
pub add_total : ℕ → ℕ → Run ℕ
add_total a b = do require (ltb (a + b) (2 ^ 63)); ok (a + b)

pub call_init : Callbacks → UserData → Run UserData
call_init cbs user = elim cbs.init [ none ↦ ok user | some f ↦ f user ]

unfoldable pub call_op :
    Callbacks → UserData → (inbuf : Option (List ℕ)) → (insize : ℕ) → Run UserData
call_op cbs user inbuf insize = elim cbs.op [
  | none ↦ ok user
  | some f ↦ f user.buf user.size inbuf insize user
]

-- The data of a child. A refusal of memory is not tested: the message is received through NULL.
pub receive_data : Os → Reply → Run (Option (List ℕ))
receive_data os reply =
    if ltb 0 reply.bytes
    then (if os.grants reply.bytes then ok (some reply.chars) else fault)
    else ok none

abbrev pub is_positive : ℤ → Bool
is_positive (pos n) = ltb 0 n
is_positive (negsuc n) = false

-- The message with the numbers of `reduce_buf`.
abbrev pub numbers : ReduceState → Payload
numbers r = Payload.ints (validity r.valid ∷ pos r.total ∷ r.bytes ∷ [])

-- The two messages of a partial result; `whole` says that the user's data is sent along.
pub send_partial : State → (whole : Bool) → Run State
send_partial st whole =
    let bytes = to_int st.user.size in
    let st1 = record st { reduce = record (st.reduce) { bytes = bytes } } in
    let st2 = send_to st1 st1.tree.parent_rank Tag.reduce (numbers st1.reduce) in
    let with_data = (do
      contents ← deref st2.user.buf
      ok (send_to st2 st2.tree.parent_rank Tag.reduce (Payload.chars contents))) in
    if is_positive bytes && whole then with_data else ok st2

-- What the root delivers.
pub deliver : Callbacks → UserData → Delivery
deliver cbs user = if cbs.fini then some (user.buf, user.size) else none

-- One child of the synchronous reduction.
pub sync_child : Os → Callbacks → State → Reply → Run State
sync_child os cbs st reply = do
  total ← add_total st.reduce.total reply.total
  inbuf ← receive_data os reply
  user ← call_op cbs st.user inbuf reply.bytes
  ok (record st { reduce = record (st.reduce) { total = total }; user = user })

pub sync_children : Os → Callbacks → State → List Reply → Run State
sync_children os cbs st [] = ok st
sync_children os cbs st (reply ∷ replies) = do
  st' ← sync_child os cbs st reply
  sync_children os cbs st' replies

-- The result goes to the parent, or to the user.
pub sync_finish : Callbacks → State → Run (State × Delivery)
sync_finish cbs st =
    if is_none st.tree.parent_rank
    then ok (st, deliver cbs st.user)
    else (do st' ← send_partial st true; ok (st', none))

-- CIRCLE_reduce_sync. `replies` is the messages of the children, in order, one for each.
pub reduce_sync : Os → Callbacks → State → (count : ℕ) → List Reply → Run (State × Delivery)
reduce_sync os cbs st count replies = do
  user ← call_init cbs st.user
  st' ←
      sync_children os cbs
        (record st {
          reduce = record (st.reduce) { valid = true; total = count; bytes = pos 0 };
          user = user;
        })
        replies
  sync_finish cbs st'

-- A reply found while a reduction is outstanding. The user's function is called only on valid data.
pub check_child : Os → Callbacks → State → Reply → Run State
check_child os cbs st reply =
    let counted = record st { reduce = record (st.reduce) { replies = st.reduce.replies + 1 } } in
    let spoiled = record counted { reduce = record (counted.reduce) { valid = false } } in
    let combined = (do
      total ← add_total st.reduce.total reply.total
      inbuf ← receive_data os reply
      user ← if st.reduce.valid then call_op cbs st.user inbuf reply.bytes else ok st.user
      ok (record counted { reduce = record (counted.reduce) { total = total }; user = user })) in
    if reply.valid then combined else ok spoiled

-- The probes for the children in turn: `none` where a child has sent nothing.
pub check_children : Os → Callbacks → State → List (Option Reply) → Run State
check_children os cbs st [] = ok st
check_children os cbs st (none ∷ found) = check_children os cbs st found
check_children os cbs st (some reply ∷ found) = do
  st' ← check_child os cbs st reply
  check_children os cbs st' found

-- When all children have replied: the own count is added, and the result goes on.
pub check_finish : Callbacks → State → (count : ℕ) → Run (State × Delivery)
check_finish cbs st count = do
  total ← add_total st.reduce.total count
  let st1 = record st { reduce = record (st.reduce) { total = total } }
  let at_root = ok (st1, if st1.reduce.valid then deliver cbs st1.user else none)
  let below = (do st' ← send_partial st1 st1.reduce.valid; ok (st', none))
  (st2, delivery) ← if is_none st1.tree.parent_rank then at_root else below
  ok (record st2 { reduce = record (st2.reduce) { outstanding = false } }, delivery)

pub check_outstanding :
    Os → Callbacks → State → (count : ℕ) → (found : List (Option Reply)) → Run (State × Delivery)
check_outstanding os cbs st count found = do
  st' ← check_children os cbs st found
  if st'.reduce.replies == st'.tree.children then check_finish cbs st' count else ok (st', none)

-- A fresh reduction: the user's data, and a message to each child.
pub begin_reduce : Callbacks → State → Run State
begin_reduce cbs st = do
  user ← call_init cbs st.user
  send_down Tag.reduce Payload.empty st.tree.children 0 (record st {
    reduce = record {
      enabled = st.reduce.enabled;
      outstanding = true;
      replies = 0;
      valid = true;
      total = 0;
      bytes = pos 0;
    };
    user = user;
  })

-- In the cleanup phase no reduction begins: the parent gets a message that is not valid.
pub decline_reduce : State → State
decline_reduce st =
    let st1 = record st { reduce = record (st.reduce) { valid = false } } in
    if is_none st.tree.parent_rank
    then st
    else send_to st1 st.tree.parent_rank Tag.reduce (numbers st1.reduce)

-- `kicked` says that the probe finds the parent's message.
pub check_start : Callbacks → State → (cleanup due kicked : Bool) → Run State
check_start cbs st cleanup due kicked =
    let start = (due || cleanup) && (is_none st.tree.parent_rank || kicked) in
    if start && cleanup
    then ok (decline_reduce st)
    else if start
    then begin_reduce cbs st
    else ok st

-- CIRCLE_reduce_check.
pub reduce_check :
    Os
    → Callbacks
    → State
    → (count : ℕ) → (cleanup due kicked : Bool) → (found : List (Option Reply))
    → Run (State × Delivery)
reduce_check os cbs st count cleanup due kicked found =
    let started = (do st' ← check_start cbs st cleanup due kicked; ok (st', none)) in
    if st.reduce.outstanding then check_outstanding os cbs st count found else started
