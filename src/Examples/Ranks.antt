-- ===== src/Examples/Ranks.antt =====
-- The tree, the split of a queue and the list of sends at concrete inputs.
use libcircle.Prelude.{
  ◌⊎◌, length, ◌≡◌, ◌<◌, ◌↔◌, refl, ℕ, Bool, true, false, none, some, List, [], ◌∷◌, ◌==◌, arith,
  get_elem?, map, Option, if◌then◌else◌,
}
use libcircle.C.{ok}
use libcircle.Tree.{Tree}
use libcircle.Tree.Family.{init-child-parent}
use libcircle.Spread.{split_sizes}
use libcircle.Spread.Share.{IsSplit, split_sizes-IsSplit}
use mathlib.Core.List.{Perm, reverse}
use libcircle.Sends.Reap.{pending, finished, check-pending}
use libcircle.Sends.{Send, Sends, check, track, Payload}
use libcircle.Sends.Track.{IsTracked, Grown, added, track-IsTracked}
use libcircle.Examples.Sample.{machine, no_sends, no_sends-IsTracked}

init-child-parent_example :
    (t : Tree) × (u : Tree) × (libcircle.Tree.init machine 1 7 2 ≡ ok t)
    × (libcircle.Tree.init machine 4 7 2 ≡ ok u)
    × (((i : ℕ) × (i < t.children) × (get_elem? t.child_ranks i ≡ some (some 4)))
        ↔ (u.parent_rank ≡ some 1))
init-child-parent_example =
    init-child-parent machine 7 2 1 4 (omega arith) (omega arith) refl (omega arith) (omega arith)

split_sizes-IsSplit_example :
    (sizes : List ℕ) × (split_sizes false 5 2 10 ≡ ok sizes) × IsSplit 2 10 sizes
split_sizes-IsSplit_example = split_sizes-IsSplit false 5 2 10 (omega arith) (omega arith)

track-IsTracked_example :
    (c : ℕ) × (track machine 8 no_sends (some Payload.empty)
      ≡ ok (added no_sends c (some Payload.empty)))
    × IsTracked (added no_sends c (some Payload.empty))
    × (((length no_sends.slots < 0) × (c ≡ 0)) ⊎ ((length no_sends.slots ≡ 0) × Grown 0 c))
track-IsTracked_example =
    track-IsTracked machine 8 (some Payload.empty) (λ n. refl) no_sends-IsTracked (omega arith)

-- Three sends, of which the first and the last have completed.
abbrev three_sends : Sends
three_sends = record {
  slots =
      record { req = 4; buf = some Payload.empty }
      ∷ record { req = 5; buf = none }
      ∷ record { req = 6; buf = some (Payload.chars []) }
      ∷ [];
  capacity = 32;
  next_req = 7;
}

abbrev not_five : ℕ → Bool
not_five r = if r == 5 then false else true

check-pending_example :
    (s' : Sends) × (freed : List (Option Payload)) × (check not_five three_sends ≡ ok (s', freed))
    × Perm s'.slots (pending not_five three_sends.slots)
    × (freed ≡ map (λ (t : Send). t.buf) (reverse (finished not_five three_sends.slots)))
check-pending_example = check-pending not_five three_sends
