-- ===== src/Token/Ring/Phase.antt =====
-- Where the token is, and that the calls of the check move it on.
use mathlib.Core.Path.{subst}
use libcircle.Prelude.{
  ℕ, suc, ◌+◌, ◌<◌, ◌≡◌, ◌≢◌, refl, sym, ◌∙◌, ◌⊎◌, inl, inr, true, false, Option, none, some, ltb,
  ltb→lt, ltb→le, ◌==◌, arith, Bool-cases, update, update_self, update-each, pos→==zero,
}
use libcircle.State.{Color, State}
use libcircle.Token.{is_black, is_terminate, token_color, token_recv}
use libcircle.Token.Lap.{
  check-pass, check-arrived, token_recv-running, passed_on, received, received-running,
}
use libcircle.Token.Ring.{Ring, next_of, moved, check_at, IsPlaced}
use libcircle.Token.Ring.Told.{Told, black_token, Told-pass, recv-dark, Told-received, Told-white}

-- A rank before the end; `P` is what it says that the token is with it.
pub record IsUp (n : ℕ) (P : ℕ → Type 0) (i : ℕ) (st : State) : Type 0 where
  pub placed : IsPlaced n i st
  pub running : is_terminate st.token.proc ≡ false
  pub only : st.token.is_local ≡ true → P i

-- Where the token is: with rank `t`, on its way from rank `s`, or no rank has work any more.
pub data Phase (n : ℕ) (r : Ring) : Type 0 where
  held :
      (t : ℕ)
      → t < n
      → ((i : ℕ) → i < n → IsUp n (λ k. k ≡ t) i (r.rank i))
      → r.flight ≡ none
      → (0 < t → is_terminate (r.rank t).token.buf ≡ false)
      → Told n r.rank r.busy t (r.rank t).token.buf
      → Phase n r
  flying :
      (s : ℕ) (c : Color)
      → s < n
      → ((i : ℕ) → i < n → IsUp n (λ k. ⊥) i (r.rank i))
      → r.flight ≡ some (next_of n s, c)
      → is_terminate c ≡ false
      → Told n r.rank r.busy (suc s) c
      → Phase n r
  over : ((i : ℕ) → i < n → r.busy i ≡ false) → Phase n r

-- One rank's state is replaced.
pub IsUp-update :
    {n : ℕ} (P Q : ℕ → Type 0) (rank : ℕ → State) (i : ℕ) (st : State)
    → ((j : ℕ) → j < n → IsUp n P j (rank j))
    → IsUp n Q i st
    → ((j : ℕ) → i ≢ j → P j → Q j)
    → (j : ℕ) → j < n
    → IsUp n Q j (update rank i st j)
IsUp-update {n} P Q rank i st up new keep j lt =
    update-each (IsUp n Q) rank i st j (λ _. new)
      (λ d.
        let u = up j lt in
        record { placed = u.placed; running = u.running; only = λ l. keep j d (u.only l) })

-- A check of the rank that has the token.
pub pass-Phase :
    {n : ℕ} {r : Ring} (i : ℕ)
    → i < n
    → r.busy i ≡ false
    → (r.rank i).token.is_local ≡ true
    → Phase n r
    → Phase n (check_at r i none)
pass-Phase {r} i lt b local (over idle) = over idle
pass-Phase {r} i lt b local (flying s c small up flight run told) = absurd ((up i lt).only local)
pass-Phase {n} {r} i lt b local (held t small up flight run told) =
    let c = token_color (r.rank i) in
    let u = up i lt in
    let st = passed_on (r.rank i) c in
    let e = check-pass (r.rank i) u.running local u.placed.no_abort in
    let q : i ≡ t = u.only local in
    let (running, told') =
      Told-pass r.rank r.busy st u.placed.own b
        (subst (λ k. 0 < k → is_terminate (r.rank k).token.buf ≡ false) (sym q) run)
        (subst (λ k. Told n r.rank r.busy k (r.rank k).token.buf) (sym q) told) in
    let new : IsUp n (λ k. ⊥) i st = record {
      placed = record { own = u.placed.own; dest = u.placed.dest; no_abort = u.placed.no_abort };
      running = refl;
      only = λ l. cc l;
    } in
    subst (λ s. Phase n (moved r i s)) (sym e)
      (flying i c lt (IsUp-update (λ k. k ≡ t) (λ k. ⊥) r.rank i st up new (λ j d l. d (q ∙ sym l)))
        (rw u.placed.dest refl) running told')

pub some_place :
    {i j : ℕ} {c d : Color} → ◌≡◌ {A = Option (ℕ × Color)} (some (i, c)) (some (j, d)) → i ≡ j
some_place q = cc q

pub some_color :
    {i j : ℕ} {c d : Color} → ◌≡◌ {A = Option (ℕ × Color)} (some (i, c)) (some (j, d)) → c ≡ d
some_color q = cc q

pub received-IsUp :
    {n i : ℕ} {P : ℕ → Type 0} (Q : ℕ → Type 0) (st : State) (c : Color)
    → IsUp n P i st
    → Q i
    → IsUp n Q i (received st c)
received-IsUp Q st c u h = record {
  placed = record { own = u.placed.own; dest = u.placed.dest; no_abort = u.placed.no_abort };
  running = received-running st.token.proc c u.running;
  only = λ _. h;
}

-- Rank `i` has the token again.
pub received-Phase :
    {n : ℕ} (r : Ring) {P : ℕ → Type 0} (i : ℕ) (c : Color)
    → i < n
    → ((j : ℕ) → j < n → IsUp n P j (r.rank j))
    → ((j : ℕ) → P j → ⊥)
    → is_terminate c ≡ false
    → Told n r.rank r.busy i c
    → Phase n (moved r i (received (r.rank i) c))
received-Phase {n} r {P} i c lt up none_ run told =
    let st = received (r.rank i) c in
    let self = update_self r.rank i st in
    held i lt
      (IsUp-update P (λ k. k ≡ i) r.rank i st up
        (received-IsUp (λ k. k ≡ i) (r.rank i) c (up i lt) refl) (λ j d l. absurd (none_ j l)))
      refl (λ _. rw self run) (rw self (Told-received r.rank i c told))

-- Rank `s` was the last before the first rank, or it was not.
pub next_cases :
    (n s : ℕ) → s < n → ((next_of n s ≡ suc s) × (suc s < n)) ⊎ ((next_of n s ≡ 0) × (suc s ≡ n))
next_cases n s lt = elim (Bool-cases (ltb (s + 1) n)) [
  | inl e ↦ inl (rw e omega arith, omega (arith, ltb→lt (s + 1) n e))
  | inr e ↦ inr (rw e refl, omega (arith, ltb→le (s + 1) n e))
]

-- The token arrives at the rank after those that have passed it on.
pub arrive-flying :
    {n : ℕ} (r : Ring) (i s : ℕ) (c : Color)
    → i < n
    → (r.rank i).token.is_local ≡ false
    → s < n
    → ((j : ℕ) → j < n → IsUp n (λ k. ⊥) j (r.rank j))
    → i ≡ next_of n s
    → is_terminate c ≡ false
    → Told n r.rank r.busy (suc s) c
    → Phase n (check_at r i (some c))
arrive-flying {n} r i s c lt away small up place run told =
    let u = up i lt in
    let arrived = check-arrived (r.rank i) c u.running away in
    let kept =
      λ (told' : Told n r.rank r.busy i c) (e : token_recv (r.rank i) c ≡ received (r.rank i) c).
        subst (λ st. Phase n (moved r i st)) (sym (arrived ∙ e))
          (received-Phase r i c lt up (λ j l. l) run told') in
    elim (next_cases n s small) [
      | inl (inner, _) ↦
          let q : suc s ≡ i = sym (place ∙ inner) in
          let first : ((r.rank i).rank == 0) ≡ false =
            pos→==zero _ (omega (arith, u.placed.own, q)) in
          kept (subst (λ k. Told n r.rank r.busy k c) q told)
            (token_recv-running (r.rank i) c first run)
      | inr (last, all) ↦ elim (Bool-cases (is_black c)) [
        | inl dark ↦ kept (black_token dark) (recv-dark (r.rank i) c dark)
        | inr light ↦ over (Told-white light (subst (λ k. Told n r.rank r.busy k c) all told))
      ]
    ]

pub arrive-Phase :
    {n : ℕ} {r : Ring} (i : ℕ) (c : Color)
    → i < n
    → (r.rank i).token.is_local ≡ false
    → r.flight ≡ some (i, c)
    → Phase n r
    → Phase n (check_at r i (some c))
arrive-Phase i c lt away e (over idle) = over idle
arrive-Phase i c lt away e (held t small up flight run told) = cc (e, flight)
arrive-Phase {n} {r} i c lt away e (flying s d small up flight run told) =
    let q : some (i, c) ≡ some (next_of n s, d) = sym e ∙ flight in
    let same : c ≡ d = some_color q in
    arrive-flying r i s c lt away small up (some_place q) (rw same run)
      (subst (Told n r.rank r.busy (suc s)) (sym same) told)
