-- ===== src/Reduction/Sync.antt =====
-- The final reduction over a whole tree of ranks, for users that combine their data by a function.
use libcircle.Prelude.{
  ℕ, ◌+◌, ◌^◌, ◌<◌, ◌≡◌, refl, ◌∙◌, ap, Bool, true, false, none, some, List, [], ◌∷◌, arith, length,
  take, lt→ltb, drop, ltb, ◌==◌, if◌then◌else◌, Option, ℤ, pos, negsuc,
}
use libcircle.C.{Run, ok, ◌>>=◌, deref, int_limit, Os}
use libcircle.Sends.{Payload}
use libcircle.State.{Tag, Post, UserData, State}
use libcircle.Input.{reduce}
use libcircle.Input.Data.{reduce-copied}
use libcircle.Collective.Net.{Net, Nets, node, leaf, also}
use libcircle.Collective.Wire.{news, recv, recv-first}
use libcircle.Reduction.{
  Callbacks, Reply, Delivery, add_total, call_op, receive_data, sync_child, reduce_sync,
}

-- The data of a rank that a message can carry.
abbrev pub Fits : List ℕ → Type 0
Fits x = (0 < length x) × (length x < int_limit)

-- The user's functions of a rank: it gives `x` to the reduction, and data is combined by `f`.
abbrev pub combining :
    Os → (f : List ℕ → List ℕ → List ℕ) → (x : List ℕ) → (fini : Bool) → Callbacks
combining os f x fini = record {
  init = some (λ user. reduce os user x (length x));
  op = some (λ current size inbuf insize user. do
    a ← deref current
    b ← deref inbuf
    reduce os user (f a b) (length (f a b)));
  fini = fini;
}

-- The user's data, when it is `x`.
abbrev pub holding : List ℕ → UserData
holding x = record { buf = some x; size = length x }

take-all : (x : List ℕ) → take (length x) x ≡ x
take-all [] = refl
take-all (c ∷ x) = ap (λ r. c ∷ r) (take-all x)

module _ (os : Os) (grants : (n : ℕ) → os.grants n ≡ true) where
  pub reduce-holding :
      (user : UserData) (x : List ℕ) → 0 < length x → reduce os user x (length x) ≡ ok (holding x)
  reduce-holding user x h =
      reduce-copied os user x (length x) h (omega arith) (grants (length x))
      ∙ ap (λ r. ok (record { buf = some r; size = length x })) (take-all x)

  -- One child, whose data is `y`.
  pub child-combined :
      (f : List ℕ → List ℕ → List ℕ) (x v y : List ℕ) (fini : Bool) (st : State) (t : ℕ)
      → st.user ≡ holding v
      → st.reduce.total + t < 2 ^ 63
      → 0 < length y
      → 0 < length (f v y)
      → sync_child os
          (combining os f x fini)
          st
          (record { valid = true; total = t; bytes = length y; chars = y })
        ≡ ok (record st {
          reduce = record (st.reduce) { total = st.reduce.total + t };
          user = holding (f v y);
        })
  unfolding sync_child add_total receive_data call_op
  child-combined f x v y fini st t e small some_ some' = simp (
    lt→ltb (st.reduce.total + t) (2 ^ 63) small,
    lt→ltb 0 (length y) some_,
    grants (length y),
    e,
    reduce-holding (holding v) (f v y) some',
  )

-- The numbers and the bytes that a message carries.
pub numbers_of : Payload → Option (ℤ × ℕ × ℕ)
numbers_of (Payload.ints (v ∷ pos t ∷ pos b ∷ [])) = some (v, t, b)
numbers_of _ = none

pub chars_of : Payload → Option (List ℕ)
chars_of (Payload.chars x) = some x
chars_of _ = none

pub is_valid : ℤ → Bool
is_valid (pos n) = n == 10
is_valid (negsuc n) = false

-- The reply that a rank receives in the messages of a child: the numbers, and where the last of them is
-- positive the data, in the message behind.
unfoldable pub recv_reply : (above : ℕ) → List Post → Run Reply
recv_reply above posts = do
  head ← recv Tag.reduce above posts
  (v, t, b) ← deref (numbers_of head)
  chars ←
      if ltb 0 b
      then (do body ← recv Tag.reduce above (drop 1 posts); deref (chars_of body))
      else ok []
  ok (record { valid = is_valid v; total = t; bytes = b; chars = chars })

abbrev pub state_of : Net → State
state_of (node st left kids) = st

-- What the calls of all ranks below a rank give. Each rank receives what the calls of its children have
-- posted to it.
module _ (os : Os) (f : List ℕ → List ℕ → List ℕ) (inputs : ℕ → List ℕ) (fini : Bool) where
  unfoldable mutual
    pub reduce_net : Net → Run (State × Delivery)
    reduce_net (node st left kids) = do
      replies ← reduce_nets st.rank kids
      reduce_sync os (combining os f (inputs st.rank) fini) st st.local_objects_processed replies

    pub reduce_nets : (above : ℕ) → Nets → Run (List Reply)
    reduce_nets above leaf = ok []
    reduce_nets above (also net nets) =
        let rest = reduce_nets above nets in
        do
          (st', delivery) ← reduce_net net
          reply ← recv_reply above (news (state_of net) st')
          replies ← rest
          ok (reply ∷ replies)

-- The objects that the ranks of a tree have processed.
unfoldable mutual
  pub processed : Net → ℕ
  processed (node st left kids) = st.local_objects_processed + processed_all kids

  pub processed_all : Nets → ℕ
  processed_all leaf = 0
  processed_all (also net nets) = processed net + processed_all nets

-- The data of the ranks of a tree, combined from the left.
module _ (f : List ℕ → List ℕ → List ℕ) (inputs : ℕ → List ℕ) where
  unfoldable mutual
    pub combined : Net → List ℕ
    combined (node st left kids) = combined_all (inputs st.rank) kids

    pub combined_all : List ℕ → Nets → List ℕ
    combined_all x leaf = x
    combined_all x (also net nets) = combined_all (f x (combined net)) nets

-- What the two messages of a partial result say.
pub recv_reply-whole :
    (above total : ℕ) (v : List ℕ)
    → 0 < length v
    → recv_reply above (
        record {
          dest = above;
          tag = Tag.reduce;
          payload = Payload.ints (pos 10 ∷ pos total ∷ pos (length v) ∷ []);
        }
        ∷ record { dest = above; tag = Tag.reduce; payload = Payload.chars v }
        ∷ [])
      ≡ ok (record { valid = true; total = total; bytes = length v; chars = v })
unfolding recv_reply numbers_of chars_of is_valid
recv_reply-whole above total v h =
    let head = Payload.ints (pos 10 ∷ pos total ∷ pos (length v) ∷ []) in
    let body : Post = record { dest = above; tag = Tag.reduce; payload = Payload.chars v } in
    rw
      (
        recv-first Tag.reduce above head (body ∷ []),
        lt→ltb 0 (length v) h,
        recv-first Tag.reduce above (Payload.chars v) [],
      )
      refl
