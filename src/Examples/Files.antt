-- ===== src/Examples/Files.antt =====
-- Checkpoints at concrete inputs.
mod Stream
use mathlib.Core.List.{reverse, reverse_aux}
use libcircle.Prelude.{
  ◌≡◌, ◌-◌, ◌+◌, ◌*◌, ◌<◌, ◌≤◌, refl, ℕ, zero, suc, ℤ, pos, true, some, none, List, [], ◌∷◌, arith,
  length, take, All, replicate,
}
use libcircle.C.{ok}
use libcircle.C.Strings.{NoZero}
use libcircle.Queue.{Queue, max_string_len}
use libcircle.Queue.Rep.{Holds}
use libcircle.Checkpoint.{Disk, write, read}
use libcircle.Checkpoint.Save.{lines, write-lines}
use libcircle.Checkpoint.Restore.{NoNewline, IsLine, read-lines, restart}
use libcircle.Checkpoint.Long.{read-cuts}
use libcircle.Examples.Files.Stream.{fgets, fgets-FgetsLaws}
use libcircle.Examples.Sample.{
  machine, letter_a, letter_b, letters, two_items, two_items-Holds, no_items, no_items-Holds,
  no_items-HasRoomFor,
}

abbrev good_disk : Disk
good_disk = record { opens = true; prints = λ k. true; closes = pos 0 }

write-lines_example :
    (q' : Queue) × (write good_disk two_items ≡ ok (q', pos 0, some (lines letters))) × Holds q' []
write-lines_example =
    write-lines good_disk letter_b (letter_a ∷ []) refl (λ k. refl) two_items-Holds

letters-IsLine : All IsLine letters
letters-IsLine = (
  record { no_zero = (omega arith, tt); no_newline = (omega arith, tt); fits = omega arith },
  (record { no_zero = (omega arith, tt); no_newline = (omega arith, tt); fits = omega arith }, tt),
)

read-lines_example :
    (q' : Queue) × (read fgets machine (pos 0) (some no_items) (some (lines letters))
      ≡ ok (some q', pos 0))
    × Holds q' (reverse_aux letters [])
read-lines_example =
    read-lines fgets fgets-FgetsLaws machine (pos 0) letters [] letters-IsLine no_items-Holds
      no_items-HasRoomFor

restart_example :
    (file : List ℕ) × (q1 : Queue) × (q2 : Queue) × (write good_disk two_items
      ≡ ok (q1, pos 0, some file))
    × Holds q1 []
    × (read fgets machine (pos 0) (some no_items) (some file) ≡ ok (some q2, pos 0))
    × Holds q2 (reverse letters)
restart_example =
    restart fgets fgets-FgetsLaws machine good_disk letter_b (letter_a ∷ []) refl (λ k. refl)
      two_items-Holds letters-IsLine no_items-Holds no_items-HasRoomFor

-- The longest string that a push accepts.
longest : List ℕ
longest = replicate 4095 b'x'

repeated-All : (n : ℕ) → (NoZero (replicate n b'x')) × (NoNewline (replicate n b'x'))
repeated-All zero = (tt, tt)
repeated-All (suc n) = let (a, b) = repeated-All n in ((omega arith, a), (omega arith, b))

read-cuts_example :
    (q' : Queue) × (read fgets machine (pos 0) (some no_items) (some (lines (longest ∷ [])))
      ≡ ok (some q', pos 0))
    × Holds q' ([] ∷ take (length longest - 1) longest ∷ [])
unfolding longest
read-cuts_example =
    read-cuts fgets fgets-FgetsLaws machine (pos 0) longest [] (repeated-All 4095).0
      (repeated-All 4095).1 refl no_items-Holds no_items-HasRoomFor
