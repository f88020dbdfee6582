-- ===== src/Collective/Keeps.antt =====
-- Messages over the tree, and the checks for termination over it, keep what `Keeps` names.
use libcircle.Prelude.{
  ℕ, zero, suc, ◌+◌, Bool, false, ◌&&◌, ◌||◌, not, Option, none, some, List, [], ◌∷◌, is_none,
  get_elem?, ltb, ◌==◌,
}
use libcircle.C.{ok, deref}
use libcircle.C.Every.{Every, Every-bind, Every-after, Every-if, Every-weaken}
use libcircle.Sends.{Payload}
use libcircle.State.{Tag, Color, State}
use libcircle.State.Keeps.{Keeps, keeps, Keeps-trans, Keeps-if, Keeps-if_pair}
use libcircle.Collective.{
  send_to, send_down, int_of, gather, term_up, term_down, await, check_for_term_allreduce,
  barrier_start, count_child, barrier_up, barrier_finish, barrier_test,
}

pub send_to-Keeps :
    (st : State) (o : Option ℕ) (tag : Tag) (p : Payload) → Keeps st (send_to st o tag p)
send_to-Keeps st none tag p = keeps st
send_to-Keeps st (some rank) tag p = keeps st

pub send_down-Keeps :
    (tag : Tag) (p : Payload) (n i : ℕ) (st : State) → Every (Keeps st) (send_down tag p n i st)
unfolding send_down Every
send_down-Keeps tag p zero i st = keeps st
send_down-Keeps tag p (suc n) i st =
    Every-after (Keeps st) (deref (get_elem? st.tree.child_ranks i)) _ λ child.
      let st1 = send_to st child tag p in
      Every-weaken (Keeps st1) (Keeps st) (send_down tag p n (i + 1) st1)
        (send_down-Keeps tag p n (i + 1) st1)
        λ st2 kept. Keeps-trans st st1 st2 (send_to-Keeps st child tag p) kept

gather-Keeps : (st : State) (arrived : List Bool) → Keeps st (gather st arrived)
unfolding gather
gather-Keeps st [] = keeps st
gather-Keeps st (f ∷ arrived) =
    Keeps-if (ltb st.term.replies st.tree.children) st _ st
      (gather-Keeps
        (record st {
          term = record (st.term) { flag = st.term.flag && f; replies = st.term.replies + 1 };
        })
        arrived)
      (keeps st)

term_up-Keeps : (st : State) → Keeps st (term_up st).0
unfolding term_up
term_up-Keeps st =
    Keeps-if_pair (not st.term.up && (st.term.replies == st.tree.children)) st _ (st, false)
      (send_to-Keeps st st.tree.parent_rank Tag.term (Payload.ints (int_of st.term.flag ∷ [])))
      (keeps st)

abbrev KeepsFirst : State → State × Color → Type 0
KeepsFirst st r = Keeps st r.0

term_down-Keeps : (st : State) (result : Bool) → Every (KeepsFirst st) (term_down st result)
unfolding term_down Every
term_down-Keeps st result =
    Every-bind (Keeps st) (KeepsFirst st)
      (send_down Tag.term (Payload.ints (int_of result ∷ [])) st.tree.children 0 st) _
      (send_down-Keeps Tag.term (Payload.ints (int_of result ∷ [])) st.tree.children 0 st)
      λ st' k. k

await-Keeps : (st : State) (released : Option Bool) → Every (KeepsFirst st) (await st released)
unfolding await Every
await-Keeps st none = keeps st
await-Keeps st (some result) = term_down-Keeps st result

pub allreduce-Keeps :
    (st : State) (arrived : List Bool) (released : Option Bool)
    → Every (KeepsFirst st) (check_for_term_allreduce st arrived released)
unfolding check_for_term_allreduce Every
allreduce-Keeps st arrived released =
    let st1 = gather st arrived in
    let k1 = gather-Keeps st arrived in
    let st2 = (term_up st1).0 in
    let k2 = Keeps-trans st st1 st2 k1 (term_up-Keeps st1) in
    Every-if (KeepsFirst st) (ltb 0 st1.work_outstanding) (ok (st1, Color.white)) _ k1 (
      Every-if (KeepsFirst st) (not st2.term.up) (ok (st2, Color.white)) _ k2 (
        Every-if (KeepsFirst st) (is_none st2.tree.parent_rank) (term_down st2 (term_up st1).1)
          (await st2 released)
          (Every-weaken (KeepsFirst st2) (KeepsFirst st) (term_down st2 (term_up st1).1)
            (term_down-Keeps st2 (term_up st1).1) λ r k. Keeps-trans st st2 r.0 k2 k)
          (Every-weaken (KeepsFirst st2) (KeepsFirst st) (await st2 released)
            (await-Keeps st2 released) λ r k. Keeps-trans st st2 r.0 k2 k)))

count_child-Keeps : (st : State) (arrived : Bool) → Keeps st (count_child st arrived)
unfolding count_child
count_child-Keeps st arrived =
    Keeps-if (ltb st.barrier.replies st.tree.children && arrived) st _ st (keeps st) (keeps st)

barrier_up-Keeps : (st : State) → Keeps st (barrier_up st)
unfolding barrier_up
barrier_up-Keeps st =
    Keeps-if (not st.barrier.up && (st.barrier.replies == st.tree.children)) st _ st
      (send_to-Keeps st st.tree.parent_rank Tag.barrier Payload.empty) (keeps st)

barrier_finish-Keeps : (st : State) → Every (λ r. Keeps st r.0) (barrier_finish st)
unfolding barrier_finish Every
barrier_finish-Keeps st =
    Every-bind (Keeps st) (λ r. Keeps st r.0)
      (send_down Tag.barrier Payload.empty st.tree.children 0 st) _
      (send_down-Keeps Tag.barrier Payload.empty st.tree.children 0 st) λ st' k. k

pub barrier_test-Keeps :
    (st : State) (arrived released : Bool)
    → Every (λ r. Keeps st r.0) (barrier_test st arrived released)
unfolding barrier_test Every
barrier_test-Keeps st arrived released =
    let P = λ (r : State × Bool). Keeps st r.0 in
    let st0 = count_child st arrived in
    let st1 = barrier_up st0 in
    let k1 = Keeps-trans st st0 st1 (count_child-Keeps st arrived) (barrier_up-Keeps st0) in
    Every-if P (not st.barrier.started) (ok (st, false)) _ (keeps st) (
      Every-if P (st1.barrier.up && (is_none st1.tree.parent_rank || released)) (barrier_finish st1)
        (ok (st1, false))
        (Every-weaken (λ r. Keeps st1 r.0) P (barrier_finish st1) (barrier_finish-Keeps st1)
          λ r k. Keeps-trans st st1 r.0 k1 k)
        k1)

pub barrier_start-Keeps : (st : State) → Keeps st (barrier_start st)
unfolding barrier_start
barrier_start-Keeps st = keeps st
