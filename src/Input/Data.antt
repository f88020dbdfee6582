-- ===== src/Input/Data.antt =====
-- CIRCLE_reduce keeps a copy of the user's bytes, but not with size 0.
use libcircle.Prelude.{ℕ, ◌≤◌, ◌<◌, ◌≡◌, refl, true, none, some, List, length, take, lt→ltb, le→leb}
use libcircle.C.{ok, Os}
use libcircle.State.{UserData}
use libcircle.Input.{reduce}

pub reduce-copied :
    (os : Os) (user : UserData) (buf : List ℕ) (size : ℕ)
    → 0 < size
    → size ≤ length buf
    → os.grants size ≡ true
    → reduce os user buf size ≡ ok (record { buf = some (take size buf); size = size })
unfolding reduce
reduce-copied os user buf size h le g = rw (lt→ltb 0 size h, g, le→leb size (length buf) le) refl

pub reduce-nothing :
    (os : Os) (user : UserData) (buf : List ℕ)
    → reduce os user buf 0 ≡ ok (record user { buf = none })
unfolding reduce
reduce-nothing os user buf = refl
