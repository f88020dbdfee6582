-- ===== src/Lib.antt =====
-- A verification library for libcircle, a distributed queue of strings on MPI: its processes take
-- strings from their queues, ask each other for more, and agree on when to stop.
--
-- The parts, the files that model them, and the code:
--   C, C/*                 what is taken of C: outcomes of a call, memory, the allocator, strings;
--                          C/Every says what holds of every result of a call
--   Queue, Queue/*         libcircle/queue.c, the queue: CIRCLE_internal_queue_init, _free, _extend,
--                          _str_extend, _push, _pop; Queue/Rep says which strings a queue holds
--   Checkpoint, .../*      libcircle/queue.c, _write and _read, with the wrappers of worker.c
--   Handle, Handle/Stack   libcircle/worker.c, CIRCLE_enqueue, CIRCLE_dequeue,
--                          CIRCLE_local_queue_size, against a stack of strings
--   Tree, Tree/*           libcircle/token.c, CIRCLE_tree_init, CIRCLE_tree_free
--   Spread, Spread/Share   libcircle/token.c, spread_counts and the split of
--                          CIRCLE_send_work_to_many
--   Sends, Sends/*         libcircle/token.c, CIRCLE_worksend_track, _check, _wait, _free
--   State, State/Isend     libcircle/token.h, the state of a rank; MPI_Isend with its tracking
--   .../Keeps              what the handlers of a component leave as it is, put together in
--                          Worker/Keeps and Worker/Steps
--   Transfer, Transfer/*   libcircle/token.c, CIRCLE_send_no_work, CIRCLE_send_work,
--                          CIRCLE_send_work_to_many; Transfer/Dealt and Transfer/Many say which
--                          items one call of the last gives to each rank
--   Receive, Receive/*     libcircle/token.c, CIRCLE_extend_offsets, CIRCLE_work_receive
--   Token, Token/*         libcircle/token.c, CIRCLE_token_issend, _recv, _check,
--                          CIRCLE_check_for_term; Token/Ring has the ranks as a transition system,
--                          and Token/Ring/Late the same with work under way
--   Collective, .../*      libcircle/token.c, CIRCLE_barrier_start, CIRCLE_barrier_test,
--                          CIRCLE_check_for_term_allreduce; Collective/Net has the ranks as a
--                          tree, and Collective/Agree runs the code on all of them;
--                          Collective/Flow has them as a transition system with transfers of
--                          work, receipts and messages under way
--   Abort, Abort/*         libcircle/token.c, CIRCLE_bcast_abort, CIRCLE_abort_start, _check,
--                          _reduce; Abort/Alarm has the ranks as a transition system
--   Input, Input/Data      libcircle/lib.h and libcircle/lib.c, what the user sets: CIRCLE_init,
--                          the setters, CIRCLE_reduce, CIRCLE_finalize
--   Reduction, .../*       libcircle/token.c, CIRCLE_reduce_check, CIRCLE_reduce_sync
--   Request, Request/*     libcircle/token.c, CIRCLE_get_next_proc, CIRCLE_request_work,
--                          CIRCLE_workreceipt_check, CIRCLE_workreq_check; Request/Share is about
--                          the whole answer to those who ask
--   Worker, Worker/*       libcircle/worker.c, CIRCLE_init_local_state, CIRCLE_work_loop,
--                          CIRCLE_finalize_local_state, CIRCLE_worker,
--                          CIRCLE_MPI_error_handler; Worker/Ready and Worker/Setup have the
--                          ranks as they are set up
--   Examples, Examples/*   the theorems at concrete inputs
--
-- How they interact: a rank's handlers take the queue (`Queue`) and the state (`State`) and return
-- new ones. A message that leaves is put at the end of the field `posted`; a message that arrives is
-- an argument. Calls of MPI, stdio and rand_r are not modelled: what they answer is an argument, and
-- what is relied on of fgets is the record `FgetsLaws`. Which requests of memory are granted is a
-- parameter too (`Os`), and so is what fresh memory holds.
-- The worker composes the handlers in the order of its loops; all that MPI answers in one round is
-- the record `Round`, and a run is given a list of them. A function of the user is a function on the
-- queue (`Callback`) or on the data of reductions. A theorem on several ranks runs the code of each
-- on the messages that the others have made, in an order that is fixed, or has the ranks act in any
-- order, by the steps of Token/Ring/Late, Collective/Flow and Abort/Alarm. What a rank receives in a
-- fixed order is read from what the calls of the others have posted (Collective/Wire). In Token/Ring a
-- transfer of work is one step; Token/Ring/Late has no such step, and says when the two differ.
-- Neither the ring nor the tree for termination has ranks that abort.
--
-- A call returns a `Run`: a result, undefined behaviour, an abort, or the end of the fuel. Numbers
-- are native; size_t wraps at 2 ^ 64, uint32_t at 2 ^ 32, and an int that would overflow is a fault
-- where it measures memory or names a rank; the counts of messages have no width.
-- Fuel: the growth loops get one more round than the target has units, the writer one more than the
-- queue has strings, the reader one more than the file has bytes, the back-off of a transfer as many
-- as it has items; the theorems on these functions show that this is enough. The pick of the next
-- rank to ask has one round for each number that is drawn, and a loop of the worker one for each
-- `Round` that it is given.
--
-- Not modelled: logging, which only writes text, with the totals that the worker prints at its end;
-- the clock, of which the reductions get whether their time has come; the test programs; and the
-- experimental queue, which is not built and does not compile. A file is what the code hands to stdio:
-- whether fclose could write it all is in its result only. The sum of 2 and the count of items of a
-- transfer (numoffsets) is not given a width. The theorems that a whole run of the
-- worker ends are for one rank.

pub mod Prelude
pub mod C
pub mod Queue
pub mod Handle
pub mod Checkpoint
pub mod Tree
pub mod Spread
pub mod Sends
pub mod State
pub mod Transfer
pub mod Receive
pub mod Token
pub mod Collective
pub mod Abort
pub mod Input
pub mod Reduction
pub mod Request
pub mod Worker
pub mod Examples
