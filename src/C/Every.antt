-- ===== src/C/Every.antt =====
-- What holds of the result of a call, where the call has one.
use libcircle.Prelude.{Bool, true, false, if◌then◌else◌, ◌≡◌, refl}
use libcircle.C.{Run, ok, fault, aborted, out_of_fuel, ◌>>=◌}
use mathlib.Core.Path.{subst}

unfoldable pub Every : {A : Type 0} → (A → Type 0) → Run A → Type 0
Every P (ok a) = P a
Every P fault = Unit
Every P aborted = Unit
Every P out_of_fuel = Unit

pub Every-bind :
    {A B : Type 0} (Q : A → Type 0) (P : B → Type 0) (m : Run A) (f : A → Run B)
    → Every Q m
    → ((a : A) → Q a → Every P (f a))
    → Every P (m >>= f)
unfolding Every
Every-bind Q P (ok a) f h k = k a h
Every-bind Q P fault f h k = tt
Every-bind Q P aborted f h k = tt
Every-bind Q P out_of_fuel f h k = tt

pub Every-after :
    {A B : Type 0} (P : B → Type 0) (m : Run A) (f : A → Run B)
    → ((a : A) → Every P (f a))
    → Every P (m >>= f)
unfolding Every
Every-after P (ok a) f k = k a
Every-after P fault f k = tt
Every-after P aborted f k = tt
Every-after P out_of_fuel f k = tt

pub Every-if :
    {A : Type 0} (P : A → Type 0) (b : Bool) (x y : Run A)
    → Every P x
    → Every P y
    → Every P (if b then x else y)
Every-if P true x y h k = h
Every-if P false x y h k = k

-- The same where the test is known in each branch.
pub Every-test :
    {A : Type 0} (P : A → Type 0) (b : Bool) (x y : Run A)
    → (b ≡ true → Every P x)
    → (b ≡ false → Every P y)
    → Every P (if b then x else y)
Every-test P true x y h k = h refl
Every-test P false x y h k = k refl

pub Every-ok : {A : Type 0} (P : A → Type 0) {m : Run A} {a : A} → Every P m → m ≡ ok a → P a
unfolding Every
Every-ok P h e = subst (Every P) e h

pub Every-weaken :
    {A : Type 0} (P Q : A → Type 0) (m : Run A) → Every P m → ((a : A) → P a → Q a) → Every Q m
unfolding Every
Every-weaken P Q (ok a) h k = k a h
Every-weaken P Q fault h k = tt
Every-weaken P Q aborted h k = tt
Every-weaken P Q out_of_fuel h k = tt
