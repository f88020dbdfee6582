-- ===== src/Prelude/Family.antt =====
-- Families indexed by a rank, updated at one index.
use Prim.Native.Nat.{ℕ}
use mathlib.Core.Path.{◌≡◌, sym, subst, fun_ext}
use mathlib.Core.Logic.{◌≢◌, ite}
use native.Mathlib.Decide.{ℕ_discrete}
use native.Mathlib.Omega.{arith}

abbrev pub update {ℓ} : {A : Type ℓ} → (ℕ → A) → ℕ → A → ℕ → A
update f i a j = ite (ℕ_discrete i j) a (f j)

module _ {ℓ} {A : Type ℓ} where
  pub update_self : (f : ℕ → A) (i : ℕ) (a : A) → update f i a i ≡ a
  update_self f i a = ground arith

  pub update_other : (f : ℕ → A) (i j : ℕ) (a : A) → i ≢ j → update f i a j ≡ f j
  update_other f i j a h = ground arith

  -- The member that is there already.
  pub update_same : (f : ℕ → A) (i : ℕ) → update f i (f i) ≡ f
  update_same f i = fun_ext (λ j. elim (ℕ_discrete i j) [
    | yes e ↦ subst (λ k. update f i (f i) k ≡ f k) e (update_self f i (f i))
    | no d ↦ update_other f i j (f i) d
  ])

  -- What holds of the new member at its index, and of the old ones at the others, holds of all.
  pub update-each {κ} :
      (P : ℕ → A → Type κ) (f : ℕ → A) (i : ℕ) (a : A) (j : ℕ)
      → (i ≡ j → P i a)
      → (i ≢ j → P j (f j))
      → P j (update f i a j)
  update-each P f i a j new old = elim (ℕ_discrete i j) [
    | yes e ↦ subst (λ k. P k (update f i a k)) e (subst (P i) (sym (update_self f i a)) (new e))
    | no d ↦ subst (P j) (sym (update_other f i j a d)) (old d)
  ]
