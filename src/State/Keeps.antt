-- ===== src/State/Keeps.antt =====
-- What the calls of a rank leave as it is: its place among the ranks, the count of the items that it
-- has processed, and the abort flag once it is set.
use libcircle.Prelude.{ℕ, ◌≡◌, refl, ◌∙◌, Bool, true, false, if◌then◌else◌, Option}
use libcircle.C.{Os}
use libcircle.C.Every.{Every, Every-after}
use libcircle.Sends.{Payload, track}
use libcircle.State.{Tag, State, isend}

abbrev pub Keeps : State → State → Type 0
Keeps st st' =
    (st'.rank ≡ st.rank)
    × (st'.size ≡ st.size)
    × (st'.tree ≡ st.tree)
    × (st'.local_objects_processed ≡ st.local_objects_processed)
    × (st.abort_flag ≡ true → st'.abort_flag ≡ true)

pub keeps : (st : State) → Keeps st st
keeps st = (refl, refl, refl, refl, λ f. f)

pub Keeps-trans : (a b c : State) → Keeps a b → Keeps b c → Keeps a c
Keeps-trans a b c (r, s, t, n, f) (r', s', t', n', f') =
    (r' ∙ r, s' ∙ s, t' ∙ t, n' ∙ n, λ e. f' (f e))

pub Keeps-if : (b : Bool) (st x y : State) → Keeps st x → Keeps st y → Keeps st (if b then x else y)
Keeps-if true st x y h k = h
Keeps-if false st x y h k = k

-- The same for a state with a further result.
pub Keeps-if_pair :
    {B : Type 0} (b : Bool) (st : State) (x y : State × B)
    → Keeps st x.0
    → Keeps st y.0
    → Keeps st (if b then x else y).0
Keeps-if_pair true st x y h k = h
Keeps-if_pair false st x y h k = k

pub isend-Keeps :
    (os : Os) (req_size : ℕ) (st : State) (dest : ℕ) (tag : Tag) (p : Payload)
    (buf : Option Payload)
    → Every (Keeps st) (isend os req_size st dest tag p buf)
unfolding isend Every
isend-Keeps os req_size st dest tag p buf =
    Every-after (Keeps st) (track os req_size st.sends buf) _ λ sends. keeps st
