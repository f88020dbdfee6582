-- ===== src/Receive/Keeps.antt =====
-- The receipt of a reply keeps what `Keeps` names.
use libcircle.Prelude.{ℕ, zero, suc, some, List, length, leb, ◌==◌, is_neg, ℤ, pos, negsuc, refl}
use libcircle.C.{aborted, deref, Os}
use libcircle.C.Every.{Every, Every-bind, Every-after, Every-if, Every-weaken}
use libcircle.Queue.{Queue}
use libcircle.Queue.{grow_int}
use libcircle.State.{Tag, State, isend}
use libcircle.State.Keeps.{Keeps, keeps, Keeps-trans, isend-Keeps}
use libcircle.Transfer.Keeps.{KeepsSecond}
use libcircle.Receive.{extend_offsets, store_ints, receive_items, receive_header, work_receive}

extend_offsets-Keeps :
    (os : Os) (st : State) (size : ℕ) → Every (λ r. Keeps st r.0) (extend_offsets os st size)
unfolding extend_offsets Every
extend_offsets-Keeps os st size =
    Every-if (λ r. Keeps st r.0) (leb size st.offsets.count) _ _ (keeps st)
      (Every-after (λ r. Keeps st r.0) (grow_int (suc size) st.offsets.count size) _
        λ count. keeps st)

receive_header-Keeps :
    (os : Os) (req_size : ℕ) (q : Queue) (st : State) (source : ℕ) (n : ℤ) (chars : List ℕ)
    → Every (KeepsSecond st) (receive_header os req_size q st source n chars)
unfolding receive_header Every
receive_header-Keeps os req_size q st source (pos zero) chars = keeps st
receive_header-Keeps os req_size q st source (pos (suc n)) chars =
    Every-after (KeepsSecond st) (receive_items os q st.offsets (suc n) chars) _ λ q'.
      Every-bind (Keeps st) (KeepsSecond st) (isend os req_size st source Tag.work_receipt _ _) _
        (isend-Keeps os req_size st source Tag.work_receipt _ _) λ st' k. k
receive_header-Keeps os req_size q st source (negsuc n) chars =
    Every-if (KeepsSecond st) (n == 31) _ _ (refl, refl, refl, refl, λ f. refl) (keeps st)

pub work_receive-Keeps :
    (os : Os) (req_size : ℕ) (q : Queue) (st : State) (source : ℕ) (ints : List ℤ) (chars : List ℕ)
    → Every (KeepsSecond st) (work_receive os req_size q st source ints chars)
unfolding work_receive Every
work_receive-Keeps os req_size q st source ints chars =
    Every-if (KeepsSecond st) (length ints == 0) aborted _ tt (
      Every-bind (λ r. Keeps st r.0) (KeepsSecond st) (extend_offsets os st (length ints)) _
        (extend_offsets-Keeps os st (length ints))
        λ (st1, rc) k1. Every-if (KeepsSecond st) (is_neg rc) aborted _ tt (
          Every-after (KeepsSecond st) (deref st1.offsets.recv_buf) _ λ cells.
            let filled = store_ints cells ints in
            let st2 = record st1 {
              offsets = record { count = st1.offsets.count; recv_buf = some filled };
            } in
            Every-weaken (KeepsSecond st2) (KeepsSecond st)
              (receive_header os req_size q st2 source (filled 0) chars)
              (receive_header-Keeps os req_size q st2 source (filled 0) chars)
              λ r k. Keeps-trans st st1 r.1 k1 k))
