-- ===== src/Transfer/Blacken.antt =====
-- The rule by which CIRCLE_send_work colors a process for the ring.
use libcircle.Prelude.{◌<◌, ◌≡◌, refl, ◌⊎◌, inl, inr, ℕ, true, ◌||◌, Bool-cases, ltb, ◌==◌, lt→ltb}
use libcircle.State.{Color, State}
use libcircle.Token.{is_black}
use libcircle.Transfer.{blacken}

-- The state with a process that is black.
abbrev pub blackened : State → State
blackened st = record st { token = record (st.token) { proc = Color.black } }

pub blacken_cases :
    (st : State) (dest : ℕ) → (blacken st dest ≡ blackened st) ⊎ (blacken st dest ≡ st)
unfolding blacken
blacken_cases st dest = elim (Bool-cases (ltb dest st.rank || dest == st.token.src)) [
  | inl e ↦ inl (rw e refl)
  | inr e ↦ inr (rw e refl)
]

pub blacken-black :
    (st : State) (dest : ℕ) → dest < st.rank → is_black (blacken st dest).token.proc ≡ true
unfolding blacken
blacken-black st dest h = rw (lt→ltb dest st.rank h) refl
