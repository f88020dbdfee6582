-- ===== src/Collective/Down.antt =====
-- A node of the tree sends its message to each of its children, in order.
use libcircle.Prelude.{
  ℕ, zero, suc, ◌+◌, ◌<◌, ◌≡◌, refl, ◌∙◌, ap, some, List, [], ◌∷◌, ◌++◌, arith, get_elem?,
}
use mathlib.Core.List.{append_assoc, append-nil}
use libcircle.C.{ok}
use libcircle.Sends.{Payload}
use libcircle.State.{Tag, Post, State, post}
use libcircle.Collective.{send_down}

-- Messages to the `n` ranks from `left` on.
unfoldable pub messages : Tag → Payload → (n left : ℕ) → List Post
messages tag payload zero left = []
messages tag payload (suc n) left =
    record { dest = left; tag = tag; payload = payload } ∷ messages tag payload n (left + 1)

pub send_down-messages :
    (tag : Tag) (payload : Payload) (n i left : ℕ) (st : State)
    → ((j : ℕ) → j < n → get_elem? st.tree.child_ranks (i + j) ≡ some (some (left + j)))
    → send_down tag payload n i st
      ≡ ok (record st { posted = st.posted ++ messages tag payload n left })
unfolding send_down messages
send_down-messages tag payload zero i left st h = rw append-nil refl
send_down-messages tag payload (suc n) i left st h =
    let e : i + 0 ≡ i = omega arith in
    let e' : left + 0 ≡ left = omega arith in
    let first : get_elem? st.tree.child_ranks i ≡ some (some left) =
      rw (e, e') at (h 0 (omega arith)) in
    let rest =
      send_down-messages tag payload n (i + 1) (left + 1) (post st left tag payload) λ j lt.
        let p : i + 1 + j ≡ i + suc j = omega arith in
        let p' : left + 1 + j ≡ left + suc j = omega arith in
        rw (p, p') (h (suc j) (omega arith)) in
    rw first (
      rest
      ∙ ap (λ p. ok (record st { posted = p }))
          (append_assoc st.posted (record { dest = left; tag = tag; payload = payload } ∷ [])
            (messages tag payload n (left + 1))))
