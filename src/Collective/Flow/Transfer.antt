-- ===== src/Collective/Flow/Transfer.antt =====
-- A transfer by CIRCLE_send_work is a step of the system.
use libcircle.Prelude.{ℕ, ◌+◌, ◌*◌, ◌≤◌, ◌<◌, ◌≡◌, ◌∙◌, ap, true, inl, inr, List, length, ℤ, pos}
use libcircle.C.{ok, int_limit, Os}
use libcircle.Queue.{Queue}
use libcircle.Queue.Rep.{Holds}
use libcircle.Sends.Track.{IsTracked}
use libcircle.State.{State}
use libcircle.Transfer.{send_work, blacken}
use libcircle.Transfer.Blacken.{blacken_cases}
use libcircle.Transfer.Send.{Sent, send_work-Sent}
use libcircle.Collective.Flow.{Gives}

Sent-Gives :
    {st st' : State} {dest : ℕ} {header : List ℤ} {bytes : List ℕ}
    → Sent (blacken st dest) dest header bytes st'
    → Gives st st'
Sent-Gives {st} {dest} s = elim (blacken_cases st dest) [
  | inl e ↦ record {
    term = s.term_kept ∙ ap (λ a. a.term) e;
    tree = s.tree_kept ∙ ap (λ a. a.tree) e;
    outstanding = s.outstanding ∙ ap (λ a. a.work_outstanding + 1) e;
  }
  | inr e ↦ record {
    term = s.term_kept ∙ ap (λ a. a.term) e;
    tree = s.tree_kept ∙ ap (λ a. a.tree) e;
    outstanding = s.outstanding ∙ ap (λ a. a.work_outstanding + 1) e;
  }
]

-- A call for at least one item that the queue holds ends as the step `give` has it.
pub send_work-Gives :
    (os : Os) (req_size : ℕ) {q : Queue} (st : State) (dest count : ℕ) {items : List (List ℕ)}
    → ((n : ℕ) → os.grants n ≡ true)
    → IsTracked st.sends
    → st.sends.capacity * 4 + 64 < int_limit
    → Holds q items
    → 0 < count
    → count ≤ length items
    → (q' : Queue) × (st' : State) × (send_work os req_size q st dest count ≡ ok (q', st', pos 0))
      × Gives st st'
send_work-Gives os req_size st dest count grants tracked small h some_ le =
    let (m, header, bytes, q', st', _, _, e, _, s, _) =
      send_work-Sent os req_size st dest count grants tracked small h some_ le in
    (q', st', e, Sent-Gives s)
