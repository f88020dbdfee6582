-- ===== src/Request/Settle.antt =====
-- Receipts and the reduction for termination: a transfer that has been acknowledged keeps the
-- reduction under way from ending with TERMINATE.
use libcircle.Prelude.{
  ℕ, zero, suc, ◌-◌, ◌<◌, ◌≤◌, ◌≡◌, refl, ◌∙◌, ap, Bool, true, false, Option, none, List, arith,
  ltb, lt→ltb, length,
}
use libcircle.C.{ok}
use libcircle.State.{Color, State}
use libcircle.Request.{workreceipt_check}
use libcircle.Collective.{check_for_term_allreduce}
use libcircle.Collective.Reduce.{conjunction-false, IsFresh, allreduce-root}

-- The rank when every transfer has been acknowledged.
abbrev pub settled : State → State
settled st = record st { work_outstanding = 0; term = record (st.term) { flag = false } }

receipts-none :
    (st : State) (n : ℕ) → ltb 0 st.work_outstanding ≡ false → workreceipt_check st n ≡ st
unfolding workreceipt_check
receipts-none st zero e = refl
receipts-none st (suc n) e = rw e refl

receipts-step :
    (st : State) (n : ℕ)
    → ltb 0 st.work_outstanding ≡ true
    → workreceipt_check st (suc n)
      ≡ workreceipt_check
          (record st {
            work_outstanding = st.work_outstanding - 1;
            term = record (st.term) { flag = false };
          })
          n
unfolding workreceipt_check
receipts-step st n e = rw e refl

receipts-settle :
    (st : State) (n k : ℕ)
    → st.work_outstanding ≡ suc k
    → suc k ≤ n
    → workreceipt_check st n ≡ settled st
receipts-settle st zero k e le = absurd (omega arith)
receipts-settle st (suc n) zero e le =
    let last : st.work_outstanding - 1 ≡ 0 = omega (arith, e) in
    let next = record st { work_outstanding = 0; term = record (st.term) { flag = false } } in
    receipts-step st n (lt→ltb 0 st.work_outstanding (omega (arith, e)))
    ∙ rw last (receipts-none next n refl)
receipts-settle st (suc n) (suc k) e le =
    let next = record st {
      work_outstanding = st.work_outstanding - 1;
      term = record (st.term) { flag = false };
    } in
    receipts-step st n (lt→ltb 0 st.work_outstanding (omega (arith, e)))
    ∙ receipts-settle next n k (omega (arith, e)) (omega arith)

-- A root with transfers under way that receives the receipts of all of them does not end the next
-- reduction with TERMINATE, whatever flags its children have sent: the call returns WHITE, and the
-- reduction begins again.
pub receipts-delay :
    (st : State) (left n : ℕ) (flags : List Bool) (released : Option Bool)
    → 0 < st.work_outstanding
    → st.work_outstanding ≤ n
    → IsFresh (settled st) left
    → st.tree.parent_rank ≡ none
    → length flags ≡ st.tree.children
    → (st' : State) × (check_for_term_allreduce (workreceipt_check st n) flags released
        ≡ ok (st', Color.white))
      × IsFresh st' left
receipts-delay st left n flags released some_ le h p e =
    let k : st.work_outstanding ≡ suc (st.work_outstanding - 1) = omega (arith, some_) in
    let all_in = receipts-settle st n (st.work_outstanding - 1) k (omega (arith, some_, le)) in
    let r = allreduce-root (settled st) left h flags e released p in
    (
      _,
      ap (λ s. check_for_term_allreduce s flags released) all_in
          ∙ (rw (conjunction-false flags) at r),
      record { down = refl; none_yet = refl; settled = refl; child = h.child },
    )
