-- ===== src/Transfer/Dealt.antt =====
-- How the strings of a queue are dealt to many requestors, and in which messages.
use mathlib.Core.List.{append_assoc}
use libcircle.Prelude.{
  ℕ, zero, suc, ◌+◌, ◌≤◌, ◌<◌, ◌≡◌, refl, ◌∙◌, ap, false, List, [], ◌∷◌, ◌++◌, length, take, drop,
  ℤ,
}
use libcircle.Queue.{Queue}
use libcircle.Queue.Rep.{Holds}
use libcircle.Sends.{Payload}
use libcircle.Sends.Track.{IsTracked}
use libcircle.Spread.Share.{sum}
use libcircle.State.{Tag, Post, State}
use libcircle.Transfer.{blacken}
use libcircle.Transfer.Packet.{IsPacket}
use libcircle.Transfer.Refusal.{refusal}
use libcircle.Transfer.Send.{Sent, blacken_kept}

-- The two messages of a transfer, before others.
abbrev pub transfer : ℕ → List ℤ → List ℕ → List Post → List Post
transfer dest header bytes posts =
    record { dest = dest; tag = Tag.work_reply; payload = Payload.ints header }
    ∷ record { dest = dest; tag = Tag.work_reply; payload = Payload.chars bytes }
    ∷ posts

-- From the strings of the queue, top first, each requestor has got a part that is not more than its
-- share, in the messages that say so; the rest stays.
pub data Dealt
    : (items : List (List ℕ))
      → (requestors shares : List ℕ) → (parts : List (List (List ℕ))) → List Post
      → (rest : List (List ℕ)) → Type 0 where
  all_served : (items : List (List ℕ)) → Dealt items [] [] [] [] items
  no_share :
      {items rest : List (List ℕ)} {requestors shares : List ℕ} {parts : List (List (List ℕ))}
      {posts : List Post} (r : ℕ)
      → Dealt items requestors shares parts posts rest
      → Dealt items (r ∷ requestors) (0 ∷ shares) ([] ∷ parts) (refusal false r ∷ posts) rest
  share :
      {items rest : List (List ℕ)} {requestors shares : List ℕ} {parts : List (List (List ℕ))}
      {posts : List Post} {header : List ℤ} {bytes : List ℕ} (r n m : ℕ)
      → 0 < m
      → m ≤ n
      → IsPacket (take m items) header bytes
      → Dealt (drop m items) requestors shares parts posts rest
      → Dealt items
          (r ∷ requestors)
          (n ∷ shares)
          (take m items ∷ parts)
          (transfer r header bytes posts)
          rest

-- All parts, one after the other.
unfoldable pub joined : List (List (List ℕ)) → List (List ℕ)
joined [] = []
joined (part ∷ parts) = part ++ joined parts

take-drop : (n : ℕ) (xs : List (List ℕ)) → take n xs ++ drop n xs ≡ xs
take-drop zero xs = refl
take-drop (suc n) [] = refl
take-drop (suc n) (x ∷ xs) = ap (λ ys. x ∷ ys) (take-drop n xs)

-- Nothing is lost, copied or invented, and each requestor has one part.
pub Dealt-joined :
    {items rest : List (List ℕ)} {requestors shares : List ℕ} {parts : List (List (List ℕ))}
    {posts : List Post}
    → Dealt items requestors shares parts posts rest
    → (joined parts ++ rest ≡ items) × (length parts ≡ length requestors)
unfolding joined
Dealt-joined (all_served items) = (refl, refl)
Dealt-joined (no_share r d) = let (e, n) = Dealt-joined d in (e, ap suc n)
Dealt-joined {items} {rest} (share {parts} r n m some_ le p d) =
    let (e, k) = Dealt-joined d in
    (
      append_assoc (take m items) (joined parts) rest
          ∙ ap (λ ys. take m items ++ ys) e
          ∙ take-drop m items,
      ap suc k,
    )

-- The result of the loop.
pub record HasDealt (q' : Queue) (st st' : State) (items : List (List ℕ))
    (requestors shares : List ℕ) : Type 0 where
  pub parts : List (List (List ℕ))
  pub posts : List Post
  pub rest : List (List ℕ)
  pub dealt : Dealt items requestors shares parts posts rest
  pub holds : Holds q' rest
  pub kept : length items ≤ length rest + sum shares
  pub messages : st'.posted ≡ st.posted ++ posts
  pub tracked : IsTracked st'.sends
  pub each_tracked : length st'.sends.slots ≡ length st.sends.slots + length posts

two_behind :
    {xs zs : List Post} (a b : Post) (ys : List Post)
    → zs ≡ xs
    → ((zs ++ (a ∷ [])) ++ (b ∷ [])) ++ ys ≡ xs ++ a ∷ b ∷ ys
two_behind {xs} {zs} a b ys e =
    append_assoc (zs ++ (a ∷ [])) (b ∷ []) ys
    ∙ append_assoc zs (a ∷ []) (b ∷ ys)
    ∙ ap (λ z. z ++ a ∷ b ∷ ys) e

pub served-posts :
    (st st1 st' : State) (r : ℕ) (header : List ℤ) (bytes : List ℕ) (posts : List Post)
    → Sent (blacken st r) r header bytes st1
    → st'.posted ≡ st1.posted ++ posts
    → st'.posted ≡ st.posted ++ transfer r header bytes posts
served-posts st st1 st' r header bytes posts s e =
    e ∙ ap (λ z. z ++ posts) s.messages ∙ two_behind _ _ posts (blacken_kept st r).1

pub none-posts :
    (st st' : State) (r : ℕ) (posts : List Post)
    → st.abort_flag ≡ false
    → st'.posted ≡ (st.posted ++ (refusal st.abort_flag r ∷ [])) ++ posts
    → st'.posted ≡ st.posted ++ refusal false r ∷ posts
none-posts st st' r posts calm e =
    e
    ∙ append_assoc st.posted (refusal st.abort_flag r ∷ []) posts
    ∙ ap (λ b. st.posted ++ refusal b r ∷ posts) calm
