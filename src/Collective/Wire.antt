-- ===== src/Collective/Wire.antt =====
-- What a rank receives of the messages that another has posted: MPI_Recv, by tag and destination.
use libcircle.Prelude.{
  ℕ, ◌≡◌, refl, Bool, true, false, ◌&&◌, Option, none, some, List, [], ◌∷◌, ◌++◌, ltb, ◌==◌, ==_iff,
  if◌then◌else◌, length, drop, pos, negsuc,
}
use libcircle.C.{Run, ok, fault, ◌>>=◌, deref}
use libcircle.Sends.{Payload}
use libcircle.State.{Tag, Post, State}
use libcircle.Collective.{int_of}

-- What a rank has posted since it was in the state `st`.
abbrev pub news : (st st' : State) → List Post
news st st' = drop (length st.posted) st'.posted

-- The values of `enum tags`.
abbrev pub number : Tag → ℕ
number Tag.work_request = 0
number Tag.work_reply = 1
number Tag.work_receipt = 2
number Tag.token = 3
number Tag.reduce = 4
number Tag.barrier = 5
number Tag.term = 6
number Tag.abort_request = 7
number Tag.abort_reply = 8
number Tag.abort_reduce = 9

-- The rank `to` receives the first of the messages, which must be one for it with the tag.
pub recv : Tag → (to : ℕ) → List Post → Run Payload
recv tag to [] = fault
recv tag to (p ∷ posts) = if number p.tag == number tag && p.dest == to then ok p.payload else fault

-- The flag that a message carries, as C reads an int.
pub flag_of : Payload → Option Bool
flag_of (Payload.ints (pos n ∷ [])) = some (ltb 0 n)
flag_of (Payload.ints (negsuc n ∷ [])) = some true
flag_of (Payload.ints []) = none
flag_of (Payload.ints (a ∷ b ∷ rest)) = none
flag_of (Payload.chars s) = none
flag_of Payload.empty = none

pub recv_flag : Tag → (to : ℕ) → List Post → Run Bool
recv_flag tag to posts = do payload ← recv tag to posts; deref (flag_of payload)

pub recv-first :
    (tag : Tag) (to : ℕ) (payload : Payload) (posts : List Post)
    → recv tag to (record { dest = to; tag = tag; payload = payload } ∷ posts) ≡ ok payload
unfolding recv
recv-first tag to payload posts =
    rw ((==_iff (number tag) (number tag)).1 refl, (==_iff to to).1 refl) refl

flag_of-int_of : (f : Bool) → flag_of (Payload.ints (int_of f ∷ [])) ≡ some f
unfolding flag_of
flag_of-int_of true = refl
flag_of-int_of false = refl

pub recv_flag-first :
    (tag : Tag) (to : ℕ) (f : Bool) (posts : List Post)
    → recv_flag tag to
        (record { dest = to; tag = tag; payload = Payload.ints (int_of f ∷ []) } ∷ posts)
      ≡ ok f
unfolding recv_flag
recv_flag-first tag to f posts =
    rw (recv-first tag to (Payload.ints (int_of f ∷ [])) posts, flag_of-int_of f) refl

pub drop-append : (xs ys : List Post) → drop (length xs) (xs ++ ys) ≡ ys
drop-append [] ys = refl
drop-append (x ∷ xs) ys = drop-append xs ys

pub drop-behind :
    (xs : List Post) (a : Post) (ys : List Post)
    → drop (length xs) ((xs ++ (a ∷ [])) ++ ys) ≡ a ∷ ys
drop-behind [] a ys = refl
drop-behind (x ∷ xs) a ys = drop-behind xs a ys
