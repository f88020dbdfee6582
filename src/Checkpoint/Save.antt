-- ===== src/Checkpoint/Save.antt =====
-- The writer puts the strings into the file, the last one pushed first, and empties the queue.
use mathlib.Core.List.{append-nil, append_assoc}
use libcircle.Prelude.{
  ℕ, zero, suc, ◌+◌, ◌<◌, ◌≡◌, refl, true, some, List, [], ◌∷◌, ◌++◌, arith, length, lt→ltb,
  pos→==zero,
}
use libcircle.C.{ok}
use libcircle.Queue.{Queue}
use libcircle.Queue.Rep.{Holds}
use libcircle.Queue.Pop.{pop-Holds}
use libcircle.Checkpoint.{Disk, newline, write_loop, write, checkpoint}

-- The file of a queue: each string and a newline.
unfoldable pub lines : List (List ℕ) → List ℕ
lines [] = []
lines (x ∷ xs) = x ++ (newline ∷ lines xs)

-- A queue that has given up all its strings.
pub record Saved (disk : Disk) (i fuel : ℕ) (q : Queue) (file : List ℕ) (items : List (List ℕ))
    : Type 0 where
  pub last : Queue
  pub runs : write_loop disk fuel i q file ≡ ok (last, true, file ++ lines items)
  pub holds : Holds last []

write_loop-Saved :
    (disk : Disk) (fuel i : ℕ) (file : List ℕ) (items : List (List ℕ)) {q : Queue}
    → ((k : ℕ) → disk.prints k ≡ true)
    → Holds q items
    → length items < fuel
    → Saved disk i fuel q file items
unfolding write_loop lines
write_loop-Saved disk zero i file items p h lt = absurd (omega arith)
write_loop-Saved disk (suc fuel) i file [] {q} p h lt = record {
  last = q;
  runs = rw (h.counted, append-nil);
  holds = h;
}
write_loop-Saved disk (suc fuel) i file (x ∷ items) {q} p h lt =
    let (e, h') = pop-Holds h in
    let rest =
      write_loop-Saved disk fuel (i + 1) (file ++ (x ++ newline ∷ [])) items p h' (omega arith) in
    record {
      last = rest.last;
      runs =
          rw (lt→ltb 0 q.count (omega (arith, h.counted)), e, p i, rest.runs) (simp (append_assoc));
      holds = rest.holds;
    }

-- Where the file opens and every line is written, what the checkpoint of a queue that holds strings
-- hands to stdio is the lines of its strings, the last one pushed first; the queue is empty after it,
-- and the result is that of fclose, which is 0 where the file could be closed.
pub write-lines :
    (disk : Disk) {q : Queue} (x : List ℕ) (items : List (List ℕ))
    → disk.opens ≡ true
    → ((k : ℕ) → disk.prints k ≡ true)
    → Holds q (x ∷ items)
    → (q' : Queue) × (write disk q ≡ ok (q', disk.closes, some (lines (x ∷ items)))) × Holds q' []
unfolding write
write-lines disk {q} x items o p h =
    let s = write_loop-Saved disk (suc q.count) 0 [] (x ∷ items) p h (omega (arith, h.counted)) in
    (s.last, rw (pos→==zero q.count (omega (arith, h.counted)), s.runs, o), s.holds)

-- A checkpoint is what the writer makes of the queue.
pub checkpoint_lem : (disk : Disk) (q : Queue) → checkpoint disk q ≡ write disk q
unfolding checkpoint
checkpoint_lem disk q = refl
