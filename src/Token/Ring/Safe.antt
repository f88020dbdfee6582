-- ===== src/Token/Ring/Safe.antt =====
-- The ring never stops too early.
use mathlib.Core.Path.{subst}
use libcircle.Prelude.{ℕ, ◌<◌, ◌≡◌, refl, sym, inl, inr, true, false, arith, update, update-each}
use libcircle.State.{State}
use libcircle.Token.{is_terminate}
use libcircle.Token.Ring.{
  Ring, give, Step, finish, deal, pass, arrive, Reach, start, later, IsStart,
}
use libcircle.Transfer.{blacken}
use libcircle.Transfer.Blacken.{blacken_cases}
use libcircle.Token.Ring.Told.{all_idle, Told-finish, Told-give}
use libcircle.Token.Ring.Phase.{
  Phase, held, flying, over, IsUp, IsUp-update, pass-Phase, arrive-Phase,
}

blacken-buf :
    (rank : ℕ → State) (i j t : ℕ)
    → (update rank i (blacken (rank i) j) t).token.buf ≡ (rank t).token.buf
blacken-buf rank i j t =
    update-each (λ k st. st.token.buf ≡ (rank k).token.buf) rank i (blacken (rank i) j) t
      (λ _. elim (blacken_cases (rank i) j) [ inl e ↦ rw e refl | inr e ↦ rw e refl ]) (λ _. refl)

blacken-IsUp :
    {n i : ℕ} {P : ℕ → Type 0} (st : State) (dest : ℕ)
    → IsUp n P i st
    → IsUp n P i (blacken st dest)
blacken-IsUp {n} {i} {P} st dest u = elim (blacken_cases st dest) [
  | inl e ↦ subst (IsUp n P i) (sym e) (record {
    placed = record { own = u.placed.own; dest = u.placed.dest; no_abort = u.placed.no_abort };
    running = refl;
    only = u.only;
  })
  | inr e ↦ subst (IsUp n P i) (sym e) u
]

finish-Phase :
    {n : ℕ} {r : Ring} (i : ℕ) → Phase n r → Phase n (record r { busy = update r.busy i false })
finish-Phase i (held t small up flight run told) = held t small up flight run (Told-finish i told)
finish-Phase i (flying s c small up flight run told) =
    flying s c small up flight run (Told-finish i told)
finish-Phase {r} i (over idle) =
    over (λ j lt. update-each (λ _ b. b ≡ false) r.busy i false j (λ _. refl) (λ _. idle j lt))

deal-Phase :
    {n : ℕ} {r : Ring} (i j : ℕ) → i < n → r.busy i ≡ true → Phase n r → Phase n (give r i j)
deal-Phase {r} i j lt b (held t small up flight run told) =
    let st = blacken (r.rank i) j in
    let buf = blacken-buf r.rank i j t in
    held t small
      (IsUp-update (λ k. k ≡ t) (λ k. k ≡ t) r.rank i st up (blacken-IsUp (r.rank i) j (up i lt))
        (λ _ _ l. l))
      flight (rw buf run) (rw buf (Told-give i j lt (up i lt).placed.own b told))
deal-Phase {r} i j lt b (flying s c small up flight run told) =
    let st = blacken (r.rank i) j in
    flying s c small
      (IsUp-update (λ k. ⊥) (λ k. ⊥) r.rank i st up (blacken-IsUp (r.rank i) j (up i lt))
        (λ _ _ l. l))
      flight run (Told-give i j lt (up i lt).placed.own b told)
deal-Phase i j lt b (over idle) = cc (b, idle i lt)

Step-Phase : {n : ℕ} {r s : Ring} → Step n r s → Phase n r → Phase n s
Step-Phase (finish i) p = finish-Phase i p
Step-Phase (deal i j lt lt' b) p = deal-Phase i j lt b p
Step-Phase (pass i lt b run local) p = pass-Phase i lt b local p
Step-Phase (arrive i c lt b run away e) p = arrive-Phase i c lt away e p

start-Phase : {n : ℕ} {r : Ring} → 0 < n → IsStart n r → Phase n r
start-Phase h s =
    held 0 h
      (λ i lt. record { placed = s.placed i lt; running = s.running i lt; only = s.first i lt })
      s.none_flies (λ z. absurd (omega arith)) (all_idle (λ i z. absurd (omega arith)))

Reach-Phase : {n : ℕ} {r s : Ring} → 0 < n → IsStart n r → Reach n r s → Phase n s
Reach-Phase h i start = start-Phase h i
Reach-Phase h i (later p st) = Step-Phase st (Reach-Phase h i p)

-- Whatever ranks of a ring do, in whatever order: once some rank has been told to stop, no rank has
-- work. At the start, any of them may have work and any may be black; the first rank has the token,
-- all have the next rank of the ring as the token's destination, and none has been told to stop or to
-- abort. The answer to a request is there before a token that leaves after it.
pub Reach-no_work :
    {n : ℕ} {r s : Ring} (i : ℕ)
    → IsStart n r
    → Reach n r s
    → i < n
    → is_terminate (s.rank i).token.proc ≡ true
    → (j : ℕ) → j < n
    → s.busy j ≡ false
Reach-no_work {n} {s} i h p lt e = stopped (Reach-Phase (omega arith) h p)
  where
    stopped : Phase n s → (j : ℕ) → j < n → s.busy j ≡ false
    stopped (held t small up flight run told) = cc (e, (up i lt).running)
    stopped (flying q c small up flight run told) = cc (e, (up i lt).running)
    stopped (over idle) = idle
