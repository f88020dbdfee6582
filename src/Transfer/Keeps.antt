-- ===== src/Transfer/Keeps.antt =====
-- The answers to requests for work keep what `Keeps` names.
use libcircle.Prelude.{ℕ, ◌+◌, ◌*◌, Bool, List, [], ◌∷◌, ◌==◌, ltb, length, drop, ℤ}
use libcircle.C.{aborted, require, deref, Os}
use libcircle.C.Every.{Every, Every-bind, Every-after, Every-if, Every-weaken}
use libcircle.Queue.{Queue}
use libcircle.Spread.{split_sizes}
use libcircle.State.{Tag, State, isend}
use libcircle.State.Keeps.{Keeps, keeps, Keeps-trans, Keeps-if, isend-Keeps}
use libcircle.Transfer.{
  send_no_work, blacken, span, shrink, int_max, send_items, send_work, send_all, send_work_to_many,
}

-- The state among the results.
abbrev pub KeepsSecond : State → Queue × State × ℤ → Type 0
KeepsSecond st r = Keeps st r.1

pub send_no_work-Keeps :
    (os : Os) (req_size : ℕ) (st : State) (dest : ℕ)
    → Every (Keeps st) (send_no_work os req_size st dest)
unfolding send_no_work Every
send_no_work-Keeps os req_size st dest =
    Every-if (Keeps st) (os.grants 8) _ aborted (isend-Keeps os req_size st dest Tag.work_reply _ _)
      tt

blacken-Keeps : (st : State) (dest : ℕ) → Keeps st (blacken st dest)
unfolding blacken
blacken-Keeps st dest = Keeps-if _ st _ st (keeps st) (keeps st)

send_items-Keeps :
    (os : Os) (req_size : ℕ) (q : Queue) (st : State) (dest count len : ℕ)
    → Every (KeepsSecond st) (send_items os req_size q st dest count len)
unfolding send_items Every
send_items-Keeps os req_size q st dest count len = Every-if (KeepsSecond st) _ aborted _ tt (
    Every-after (KeepsSecond st) (deref q.strings) _ λ strings.
      Every-after (KeepsSecond st) (deref q.base) _ λ base.
        Every-after (KeepsSecond st) (require _) _ λ u.
          Every-bind (Keeps st) (KeepsSecond st) (isend os req_size st dest Tag.work_reply _ _) _
            (isend-Keeps os req_size st dest Tag.work_reply _ _)
            λ st1 k1.
              Every-bind (Keeps st1) (KeepsSecond st)
                (isend os req_size st1 dest Tag.work_reply _ _) _
                (isend-Keeps os req_size st1 dest Tag.work_reply _ _)
                λ st2 k2. Keeps-trans st st1 st2 k1 k2)

pub send_work-Keeps :
    (os : Os) (req_size : ℕ) (q : Queue) (st : State) (dest count : ℕ)
    → Every (KeepsSecond st) (send_work os req_size q st dest count)
unfolding send_work Every
send_work-Keeps os req_size q st dest count =
    let black = blacken st dest in
    let k0 = blacken-Keeps st dest in
    Every-if (KeepsSecond st) (count == 0) _ _
      (Every-bind (Keeps st) (KeepsSecond st) (send_no_work os req_size st dest) _
        (send_no_work-Keeps os req_size st dest) λ st1 k1. k1)
      (Every-after (KeepsSecond st) (span q count) _ λ len.
        Every-after (KeepsSecond st) (shrink count q count len) _ λ (n, len').
          Every-if (KeepsSecond st) (ltb int_max len') _ _
            (Every-bind (Keeps black) (KeepsSecond st) (send_no_work os req_size black dest) _
              (send_no_work-Keeps os req_size black dest) λ st1 k1. Keeps-trans st black st1 k0 k1)
            (Every-weaken (KeepsSecond black) (KeepsSecond st)
              (send_items os req_size q black dest n len')
              (send_items-Keeps os req_size q black dest n len')
              λ r k. Keeps-trans st black r.1 k0 k))

-- The state of a pair.
abbrev pub KeepsLast : State → Queue × State → Type 0
KeepsLast st r = Keeps st r.1

send_all-Keeps :
    (os : Os) (req_size : ℕ) (q : Queue) (st : State) (requestors sizes : List ℕ)
    → Every (KeepsLast st) (send_all os req_size q st requestors sizes)
unfolding send_all Every
send_all-Keeps os req_size q st [] sizes = keeps st
send_all-Keeps os req_size q st (r ∷ requestors) [] = tt
send_all-Keeps os req_size q st (r ∷ requestors) (n ∷ sizes) =
    Every-bind (KeepsSecond st) (KeepsLast st) (send_work os req_size q st r n) _
      (send_work-Keeps os req_size q st r n)
      λ (q', st', rc) k.
        Every-weaken (KeepsLast st') (KeepsLast st) (send_all os req_size q' st' requestors sizes)
          (send_all-Keeps os req_size q' st' requestors sizes) λ a k'. Keeps-trans st st' a.1 k k'

pub send_work_to_many-Keeps :
    (os : Os) (req_size : ℕ) (equal : Bool) (rand : ℕ) (q : Queue) (st : State)
    (requestors : List ℕ)
    → Every (KeepsLast st) (send_work_to_many os req_size equal rand q st requestors)
unfolding send_work_to_many Every
send_work_to_many-Keeps os req_size equal rand q st requestors =
    Every-if (KeepsLast st) (length requestors == 0) aborted _ tt (
      Every-if (KeepsLast st) (os.grants ((length requestors + 1) * 4)) _ aborted
        (Every-after (KeepsLast st) (split_sizes equal rand (length requestors) q.count) _
          λ sizes. send_all-Keeps os req_size q st requestors (drop 1 sizes))
        tt)
