-- ===== src/Token/Ring/Told.antt =====
-- What the token and the ranks that it has still to visit say of those that have passed it on.
use mathlib.Core.Path.{subst}
use native.Mathlib.Decide.{ℕ_discrete}
use libcircle.Prelude.{
  ℕ, zero, suc, ◌≤◌, ◌<◌, ◌≡◌, refl, sym, inl, inr, Bool, true, false, ltb, ltb→lt, ltb→le, ◌==◌,
  arith, Bool-cases, update, update_self, update-each, update_other, pos→==zero,
}
use libcircle.State.{Color, State}
use libcircle.Token.{is_black, is_terminate, token_color, token_recv}
use libcircle.Token.Lap.{received}
use libcircle.Transfer.{blacken}
use libcircle.Transfer.Blacken.{blacken_cases, blacken-black}

-- The ranks below `t` have passed the token on, in the color `c` by now. If some of them have work
-- again, then a black rank or a black token says so.
pub data Told (n : ℕ) (rank : ℕ → State) (busy : ℕ → Bool) (t : ℕ) (c : Color) : Type 0 where
  black_token : is_black c ≡ true → Told n rank busy t c
  black_rank : (j : ℕ) → t ≤ j → j < n → is_black (rank j).token.proc ≡ true → Told n rank busy t c
  all_idle : ((i : ℕ) → i < t → busy i ≡ false) → Told n rank busy t c

-- A rank's work ends.
pub Told-finish :
    {n t : ℕ} {rank : ℕ → State} {busy : ℕ → Bool} {c : Color} (i : ℕ)
    → Told n rank busy t c
    → Told n rank (update busy i false) t c
Told-finish i (black_token e) = black_token e
Told-finish i (black_rank j le lt e) = black_rank j le lt e
Told-finish {busy} i (all_idle idle) =
    all_idle (λ j lt. update-each (λ _ b. b ≡ false) busy i false j (λ _. refl) (λ _. idle j lt))

pub blacken-still :
    (st : State) (dest : ℕ)
    → is_black st.token.proc ≡ true
    → is_black (blacken st dest).token.proc ≡ true
blacken-still st dest h = elim (blacken_cases st dest) [ inl e ↦ rw e refl | inr e ↦ rw e h ]

-- Work is given away. A rank that has passed the token on gets it only from one that has work: where
-- that one has passed the token on too, it was told already, else it is black now.
pub Told-give :
    {n t : ℕ} {rank : ℕ → State} {busy : ℕ → Bool} {c : Color} (i j : ℕ)
    → i < n
    → (rank i).rank ≡ i
    → busy i ≡ true
    → Told n rank busy t c
    → Told n (update rank i (blacken (rank i) j)) (update busy j true) t c
Told-give i j lt own b (black_token e) = black_token e
Told-give {rank} i j lt own b (black_rank k le lt' e) = black_rank k le lt' (
    update-each (λ _ st. is_black st.token.proc ≡ true) rank i (blacken (rank i) j) k
      (λ q. blacken-still (rank i) j (subst (λ z. is_black (rank z).token.proc ≡ true) (sym q) e))
      (λ _. e))
Told-give {t} {rank} {busy} i j lt own b (all_idle idle) = elim (Bool-cases (ltb i t)) [
  | inl below ↦ cc (idle i (ltb→lt i t below), b)
  | inr above ↦ elim (Bool-cases (ltb j t)) [
    | inl behind ↦ black_rank i (ltb→le i t above) lt (
        rw (update_self rank i (blacken (rank i) j))
          (blacken-black (rank i) j (omega (arith, own, ltb→lt j t behind, ltb→le i t above))))
    | inr ahead ↦ all_idle (λ k small.
        update-each (λ _ v. v ≡ false) busy j true k
          (λ q. absurd (omega (arith, q, ltb→le j t ahead))) (λ _. idle k small))
  ]
]

pub color-first : (st : State) → st.rank ≡ 0 → token_color st ≡ Color.white
unfolding token_color
color-first st e = rw e refl

pub color-black :
    (st : State) → 0 < st.rank → is_black st.token.proc ≡ true → token_color st ≡ Color.black
unfolding token_color
color-black st h e = rw (pos→==zero st.rank h, e) refl

pub color-kept :
    (st : State) → 0 < st.rank → is_black st.token.proc ≡ false → token_color st ≡ st.token.buf
unfolding token_color
color-kept st h e = rw (pos→==zero st.rank h, e) refl

-- A white rank without work passes the token on.
pub Told-later :
    {n i : ℕ} {rank : ℕ → State} {busy : ℕ → Bool} {c : Color} (st : State)
    → is_black (rank i).token.proc ≡ false
    → busy i ≡ false
    → Told n rank busy i c
    → Told n (update rank i st) busy (suc i) c
Told-later st w b (black_token e) = black_token e
Told-later {i} {rank} st w b (black_rank j le lt e) = elim (ℕ_discrete i j) [
  | yes q ↦ cc (w, e, q)
  | no d ↦ black_rank j (omega (arith, d)) lt (rw (update_other rank i j st d) e)
]
Told-later {i} {busy} st w b (all_idle idle) = all_idle (λ k small. elim (ℕ_discrete i k) [
  | yes q ↦ subst (λ z. busy z ≡ false) q b
  | no d ↦ idle k (omega (arith, d))
])

-- The rank that passes the token on has no work, and leaves its color with the token.
pub Told-pass :
    {n i : ℕ} (rank : ℕ → State) (busy : ℕ → Bool) (st : State)
    → (rank i).rank ≡ i
    → busy i ≡ false
    → (0 < i → is_terminate (rank i).token.buf ≡ false)
    → Told n rank busy i (rank i).token.buf
    → (is_terminate (token_color (rank i)) ≡ false)
      × Told n (update rank i st) busy (suc i) (token_color (rank i))
Told-pass {i = zero} rank busy st own b run told =
    rw (color-first (rank zero) own)
      (refl, all_idle (λ k small. subst (λ z. busy z ≡ false) (omega arith) b))
Told-pass {i = suc m} rank busy st own b run told =
    let above : 0 < (rank (suc m)).rank = omega (arith, own) in
    elim (Bool-cases (is_black (rank (suc m)).token.proc)) [
      | inl e ↦ rw (color-black (rank (suc m)) above e) (refl, black_token refl)
      | inr e ↦ rw (color-kept (rank (suc m)) above e) (run (omega arith), Told-later st e b told)
    ]

-- A token that does not end the ring is kept.
pub recv-black : (st : State) → token_recv st Color.black ≡ received st Color.black
unfolding token_recv
recv-black st = elim (Bool-cases (st.rank == 0)) [ inl e ↦ rw e refl | inr e ↦ rw e refl ]

pub recv-dark : (st : State) (c : Color) → is_black c ≡ true → token_recv st c ≡ received st c
recv-dark st Color.black e = recv-black st
recv-dark st Color.white e = cc e
recv-dark st Color.terminate e = cc e

pub received-white :
    (st : State) (c : Color) → is_black c ≡ false → (received st c).token.proc ≡ st.token.proc
received-white st c e = elim (Bool-cases (is_black st.token.proc)) [
  | inl d ↦ rw (d, e) refl
  | inr d ↦ rw d refl
]

pub Told-received :
    {n t : ℕ} {busy : ℕ → Bool} (rank : ℕ → State) (i : ℕ) (c : Color)
    → Told n rank busy t c
    → Told n (update rank i (received (rank i) c)) busy t c
Told-received rank i c (black_token e) = black_token e
Told-received rank i c (all_idle idle) = all_idle idle
Told-received rank i c (black_rank j le lt e) = elim (Bool-cases (is_black c)) [
  | inl dark ↦ black_token dark
  | inr light ↦ black_rank j le lt (
      update-each (λ _ st. is_black st.token.proc ≡ true) rank i (received (rank i) c) j
        (λ q.
          rw (received-white (rank i) c light)
            (subst (λ z. is_black (rank z).token.proc ≡ true) (sym q) e))
        (λ _. e))
]

-- A token that is white after all ranks have passed it on: none has work.
pub Told-white :
    {n : ℕ} {rank : ℕ → State} {busy : ℕ → Bool} {c : Color}
    → is_black c ≡ false
    → Told n rank busy n c
    → (i : ℕ) → i < n
    → busy i ≡ false
Told-white w (black_token e) i lt = cc (w, e)
Told-white w (black_rank j le lt e) i lt' = absurd (omega arith)
Told-white w (all_idle idle) i lt = idle i lt
