-- ===== src/Token/Ring/Late.antt =====
-- The ring with transfers of work under way. What has been sent to a rank is there at any later time,
-- in whatever order: the token may be there before it. `late` says that some rank has gone on with the
-- token while work was on its way to it.
use mathlib.Core.Path.{subst, fun_ext}
use native.Mathlib.Decide.{ℕ_discrete}
use libcircle.Prelude.{
  ℕ, ◌+◌, ◌-◌, ◌<◌, ◌≡◌, refl, sym, ap, ◌⊎◌, inl, inr, Bool, true, false, ◌||◌, Option, none, some,
  ltb, ltb→le, arith, update, update_self, update_other, Bool-cases,
}
use libcircle.State.{Color, State}
use libcircle.Token.{is_terminate}
use libcircle.Transfer.{blacken}
use libcircle.Token.Ring.{Ring, check_at, IsStart}
use libcircle.Token.Ring.Safe.{Reach-no_work}

pub record Delayed : Type 0 where
  pub ring : Ring
  pub coming : ℕ → ℕ
  pub late : Bool

-- Rank `i` calls the check, with the token.
abbrev pub checked : Delayed → ℕ → Option Color → Delayed
checked d i token = record d { ring = check_at d.ring i token; late = d.late || ltb 0 (d.coming i) }

-- The steps of `n` ranks; a rank checks while it has no work, whatever is on its way to it.
pub data Step (n : ℕ) (d : Delayed) : Delayed → Type 0 where
  finish :
      (i : ℕ) → Step n d (record d { ring = record (d.ring) { busy = update d.ring.busy i false } })
  send :
      (i j : ℕ)
      → i < n
      → j < n
      → d.ring.busy i ≡ true
      → Step n d (record d {
        ring = record (d.ring) { rank = update d.ring.rank i (blacken (d.ring.rank i) j) };
        coming = update d.coming j (d.coming j + 1);
      })
  receive :
      (j : ℕ)
      → 0 < d.coming j
      → Step n d (record d {
        ring = record (d.ring) { busy = update d.ring.busy j true };
        coming = update d.coming j (d.coming j - 1);
      })
  pass :
      (i : ℕ)
      → i < n
      → d.ring.busy i ≡ false
      → is_terminate (d.ring.rank i).token.proc ≡ false
      → (d.ring.rank i).token.is_local ≡ true
      → Step n d (checked d i none)
  arrive :
      (i : ℕ) (token : Color)
      → i < n
      → d.ring.busy i ≡ false
      → is_terminate (d.ring.rank i).token.proc ≡ false
      → (d.ring.rank i).token.is_local ≡ false
      → d.ring.flight ≡ some (i, token)
      → Step n d (checked d i (some token))

pub data Reach (n : ℕ) (d : Delayed) : Delayed → Type 0 where
  start : Reach n d d
  later : {s t : Delayed} → Reach n d s → Step n s t → Reach n d t

-- The ring in which work on its way to a rank is work of the rank.
abbrev owned : (ℕ → Bool) → (ℕ → ℕ) → ℕ → Bool
owned busy coming j = busy j || ltb 0 (coming j)

abbrev settled : Delayed → Ring
settled d = record (d.ring) { busy = owned d.ring.busy d.coming }

owned-finish :
    (busy : ℕ → Bool) (coming : ℕ → ℕ) (i : ℕ)
    → ltb 0 (coming i) ≡ false
    → owned (update busy i false) coming ≡ update (owned busy coming) i false
owned-finish busy coming i e = fun_ext (λ j. elim (ℕ_discrete i j) [
  | yes same ↦
      subst (λ k. owned (update busy i false) coming k ≡ update (owned busy coming) i false k) same
        (rw (update_self busy i false, update_self (owned busy coming) i false) e)
  | no differ ↦
      rw (update_other busy i j false differ, update_other (owned busy coming) i j false differ)
        refl
])

owned-still :
    (busy : ℕ → Bool) (coming : ℕ → ℕ) (i : ℕ)
    → ltb 0 (coming i) ≡ true
    → owned (update busy i false) coming ≡ owned busy coming
owned-still busy coming i e = fun_ext (λ j. elim (ℕ_discrete i j) [
  | yes same ↦
      subst (λ k. owned (update busy i false) coming k ≡ owned busy coming k) same
        (rw (update_self busy i false) (ground (arith, e)))
  | no differ ↦ rw (update_other busy i j false differ) refl
])

owned-send :
    (busy : ℕ → Bool) (coming : ℕ → ℕ) (j : ℕ)
    → owned busy (update coming j (coming j + 1)) ≡ update (owned busy coming) j true
owned-send busy coming j = fun_ext (λ k. elim (ℕ_discrete j k) [
  | yes same ↦
      subst
        (λ z. owned busy (update coming j (coming j + 1)) z ≡ update (owned busy coming) j true z)
        same
        (rw (update_self coming j (coming j + 1), update_self (owned busy coming) j true)
          (ground arith))
  | no differ ↦
      rw
        (
          update_other coming j k (coming j + 1) differ,
          update_other (owned busy coming) j k true differ,
        )
        refl
])

owned-receive :
    (busy : ℕ → Bool) (coming : ℕ → ℕ) (j : ℕ)
    → 0 < coming j
    → owned (update busy j true) (update coming j (coming j - 1)) ≡ owned busy coming
owned-receive busy coming j h = fun_ext (λ k. elim (ℕ_discrete j k) [
  | yes same ↦
      subst
        (λ z. owned (update busy j true) (update coming j (coming j - 1)) z ≡ owned busy coming z)
        same (rw (update_self busy j true) (ground (arith, h)))
  | no differ ↦
      rw (update_other busy j k true differ, update_other coming j k (coming j - 1) differ) refl
])

-- Where no rank is late, a step is one of the ring in which transfers take no time, or none.
Follows : ℕ → Delayed → Delayed → Type 0
Follows n d e =
    (d.late ≡ false)
    × (libcircle.Token.Ring.Step n (settled d) (settled e) ⊎ (settled d ≡ settled e))

or-none : (a b : Bool) → (a || b) ≡ false → (a ≡ false) × (b ≡ false)
or-none a b e = ground arith

owned-true : (a b : Bool) → a ≡ true → (a || b) ≡ true
owned-true a b e = ground arith

same_ring :
    (r : Ring) (rank : ℕ → State) {busy busy' : ℕ → Bool}
    → busy ≡ busy'
    → (record r { rank = rank; busy = busy }) ≡ (record r { rank = rank; busy = busy' })
same_ring r rank e = ap (λ b. record r { rank = rank; busy = b }) e

Step-Follows : {n : ℕ} {d e : Delayed} → Step n d e → e.late ≡ false → Follows n d e
unfolding Follows
Step-Follows {n} {d} (finish i) calm = elim (Bool-cases (ltb 0 (d.coming i))) [
  | inl more ↦
      (calm, inr (same_ring d.ring d.ring.rank (sym (owned-still d.ring.busy d.coming i more))))
  | inr none_ ↦ (
    calm,
    inl (
        subst (libcircle.Token.Ring.Step n (settled d))
          (same_ring d.ring d.ring.rank (sym (owned-finish d.ring.busy d.coming i none_)))
          (libcircle.Token.Ring.Step.finish i)),
  )
]
Step-Follows {n} {d} (send i j lt lt' b) calm = (
  calm,
  inl (
      subst (libcircle.Token.Ring.Step n (settled d))
        (same_ring d.ring (update d.ring.rank i (blacken (d.ring.rank i) j))
          (sym (owned-send d.ring.busy d.coming j)))
        (libcircle.Token.Ring.Step.deal i j lt lt'
          (owned-true (d.ring.busy i) (ltb 0 (d.coming i)) b))),
)
Step-Follows {d} (receive j h) calm =
    (calm, inr (same_ring d.ring d.ring.rank (sym (owned-receive d.ring.busy d.coming j h))))
Step-Follows {d} (pass i lt b run local) calm =
    let (calm', none_) = or-none d.late (ltb 0 (d.coming i)) calm in
    (calm', inl (libcircle.Token.Ring.Step.pass i lt (rw (b, none_) refl) run local))
Step-Follows {d} (arrive i token lt b run away e) calm =
    let (calm', none_) = or-none d.late (ltb 0 (d.coming i)) calm in
    (calm', inl (libcircle.Token.Ring.Step.arrive i token lt (rw (b, none_) refl) run away e))

Reach-settled :
    {n : ℕ} {d e : Delayed}
    → Reach n d e
    → e.late ≡ false
    → libcircle.Token.Ring.Reach n (settled d) (settled e)
unfolding Follows
Reach-settled start calm = libcircle.Token.Ring.Reach.start
Reach-settled {n} {d} (later p st) calm =
    let (calm', f) = Step-Follows st calm in
    let reached = Reach-settled p calm' in
    elim f [
      | inl step ↦ libcircle.Token.Ring.Reach.later reached step
      | inr same ↦ subst (libcircle.Token.Ring.Reach n (settled d)) same reached
    ]

-- Whatever ranks of a ring do, in whatever order, with transfers of work that take any time: once some
-- rank has been told to stop, either no rank has work and none is on its way, or some rank has called
-- the check with the token, held or found, while work was on its way to it. At the start, any rank may
-- have work and any may be black; the first rank has the token, all have the next rank of the ring
-- as the token's destination, and none has been told to stop or to abort.
pub Reach-stopped :
    {n : ℕ} {d e : Delayed} (i : ℕ)
    → IsStart n d.ring
    → Reach n d e
    → i < n
    → is_terminate (e.ring.rank i).token.proc ≡ true
    → (e.late ≡ true) ⊎ ((j : ℕ) → j < n → (e.ring.busy j ≡ false) × (e.coming j ≡ 0))
Reach-stopped {n} {d} {e} i h p lt t = elim (Bool-cases e.late) [
  | inl late ↦ inl late
  | inr calm ↦ inr (λ j lt'.
      let begun : IsStart n (settled d) = record {
        placed = h.placed;
        running = h.running;
        first = h.first;
        holds = h.holds;
        none_flies = h.none_flies;
      } in
      let (b, none_) =
        or-none (e.ring.busy j) (ltb 0 (e.coming j))
          (Reach-no_work i begun (Reach-settled p calm) lt t j lt') in
      (b, omega (arith, ltb→le 0 (e.coming j) none_)))
]
