-- ===== src/Abort/Sweep.antt =====
-- The reduction of the abort flags over a whole tree of ranks: all ranks end with the same flag, that
-- is set exactly where some rank's was.
use libcircle.Prelude.{
  ℕ, suc, ◌+◌, ◌≡◌, refl, ◌∙◌, ap, Bool, false, ◌||◌, Option, none, some, List, [], ◌∷◌, ◌++◌,
  arith, drop, is_none, if◌then◌else◌, All-append, length-append, length, All,
}
use mathlib.Core.Path.{subst}
use libcircle.C.{Run, ok, ◌>>=◌}
use libcircle.Sends.{Payload}
use libcircle.State.{Tag, Post, State}
use libcircle.Collective.{int_of}
use libcircle.Collective.Down.{messages}
use libcircle.Collective.Net.{
  Net, Nets, node, leaf, also, rank_of, count, size, size_all, Linked, AllLinked,
}
use libcircle.Collective.Wire.{news, recv_flag, recv_flag-first, drop-append, drop-behind}
use libcircle.Abort.Conclude.{concluded, reported, reduce-runs, result-inner, result-root}
use libcircle.Abort.{disjunction, abort_up, abort_result, abort_reduce}

-- The flag that a rank receives from the call of its child `net`: that of the first message that the
-- call posts, which the child sends before it waits for the answer of its parent, `answer`. A call that
-- is not `ok` ends the whole.
mutual
  pub up : (answer : Bool) → (above : ℕ) → Net → Run Bool
  up answer above (node st left kids) = do
    flags ← ups answer st.rank kids
    st' ← abort_reduce st flags answer
    recv_flag Tag.abort_reduce above (news st st')

  pub ups : (answer : Bool) → (above : ℕ) → Nets → Run (List Bool)
  ups answer above leaf = ok []
  ups answer above (also net nets) =
      let rest = ups answer above nets in do f ← up answer above net; flags ← rest; ok (f ∷ flags)

-- The messages of a call to the children: what it posts behind the message to the parent.
pub down : (st st' : State) → List Post
down st st' = if is_none st.tree.parent_rank then news st st' else drop 1 (news st st')

-- The states in which the code leaves all ranks. Each receives the flags of its children, and each but
-- the first the answer that its parent has posted to it.
mutual
  pub sweep : (answer : Bool) → Net → Run (List State)
  sweep answer (node st left kids) = do
    flags ← ups answer st.rank kids
    st' ← abort_reduce st flags answer
    states ← sweeps (down st st') kids
    ok (st' ∷ states)

  pub sweeps : (posts : List Post) → Nets → Run (List State)
  sweeps posts leaf = ok []
  sweeps posts (also net nets) =
      let rest = sweeps (drop 1 posts) nets in
      do
        answer ← recv_flag Tag.abort_reduce (rank_of net) posts
        first ← sweep answer net
        others ← rest
        ok (first ++ others)

-- Some rank has its flag set.
mutual
  pub any_abort : Net → Bool
  any_abort (node st left kids) = st.abort_flag || any_aborts kids

  pub any_aborts : Nets → Bool
  any_aborts leaf = false
  any_aborts (also net nets) = any_abort net || any_aborts nets

-- Whether some rank below has its flag set, for each child.
flags_below : Nets → List Bool
flags_below leaf = []
flags_below (also net nets) = any_abort net ∷ flags_below nets

disjunction-below :
    (f : Bool) (kids : Nets) → disjunction f (flags_below kids) ≡ (f || any_aborts kids)
unfolding any_abort disjunction flags_below
disjunction-below f leaf = ground arith
disjunction-below f (also net nets) = disjunction-below (f || any_abort net) nets ∙ ground arith

up-below :
    (st : State) (left : ℕ) (kids : Nets)
    → abort_up st (flags_below kids) ≡ any_abort (node st left kids)
unfolding abort_up any_abort
up-below st left kids = disjunction-below st.abort_flag kids

-- A rank that has the flag `f` as the result.
abbrev pub Knows : Bool → State → Type 0
Knows f st = (st.abort_flag ≡ f) × (st.abort.active ≡ f)

-- What a call posts: at the first rank, the answers; else the flag before them.
news-root :
    (st : State) (flags : List Bool) (left : ℕ) (result : Bool)
    → st.tree.parent_rank ≡ none
    → news st (concluded (reported st flags) left result)
      ≡ messages Tag.abort_reduce (Payload.ints (int_of result ∷ [])) st.tree.children left
news-root st flags left result e = rw e (drop-append st.posted _)

news-inner :
    (st : State) (flags : List Bool) (left : ℕ) (result : Bool) {above : ℕ}
    → st.tree.parent_rank ≡ some above
    → news st (concluded (reported st flags) left result) ≡ (
        record {
          dest = above;
          tag = Tag.abort_reduce;
          payload = Payload.ints (int_of (abort_up st flags) ∷ []);
        }
        ∷ messages Tag.abort_reduce (Payload.ints (int_of result ∷ [])) st.tree.children left)
news-inner st flags left result e = rw e (drop-behind st.posted _ _)

down-messages :
    (st : State) (flags : List Bool) (left : ℕ) (result : Bool) (parent : Option ℕ)
    → st.tree.parent_rank ≡ parent
    → down st (concluded (reported st flags) left result)
      ≡ messages Tag.abort_reduce (Payload.ints (int_of result ∷ [])) st.tree.children left
unfolding down
down-messages st flags left result none e = rw (news-root st flags left result e, e) refl
down-messages st flags left result (some above) e = rw (news-inner st flags left result e, e) refl

-- The parent receives the flag.
heard :
    (st : State) (left : ℕ) (kids : Nets) (result : Bool) {above : ℕ}
    → st.tree.parent_rank ≡ some above
    → recv_flag Tag.abort_reduce above
        (news st (concluded (reported st (flags_below kids)) left result))
      ≡ ok (any_abort (node st left kids))
heard st left kids result {above} e =
    ap (recv_flag Tag.abort_reduce above) (news-inner st (flags_below kids) left result e)
    ∙ recv_flag-first Tag.abort_reduce above (abort_up st (flags_below kids)) _
    ∙ ap ok (up-below st left kids)

mutual
  unfolding up Linked flags_below

  up-runs :
      (net : Net) (answer : Bool) (above : ℕ)
      → Linked (some above) net
      → up answer above net ≡ ok (any_abort net)
  up-runs (node st left kids) answer above l =
      let flags = flags_below kids in
      rw (ups-runs kids answer st.rank left l.3, reduce-runs st flags answer left l.2)
        (heard st left kids (abort_result st flags answer) l.0)

  ups-runs :
      (nets : Nets) (answer : Bool) (above first : ℕ)
      → AllLinked above first nets
      → ups answer above nets ≡ ok (flags_below nets)
  ups-runs leaf answer above i l = refl
  ups-runs (also net nets) answer above i l =
      simp (up-runs net answer above l.1, ups-runs nets answer above (i + 1) l.2)

sweep-node :
    (answer : Bool) (st : State) (left : ℕ) (kids : Nets) (parent : Option ℕ) {states : List State}
    → Linked parent (node st left kids)
    → sweeps
        (messages Tag.abort_reduce
          (Payload.ints (int_of (abort_result st (flags_below kids) answer) ∷ []))
          (count kids)
          left)
        kids
      ≡ ok states
    → sweep answer (node st left kids)
      ≡ ok (
          concluded
            (reported st (flags_below kids))
            left
            (abort_result st (flags_below kids) answer)
          ∷ states)
unfolding sweep Linked
sweep-node answer st left kids parent l e =
    let flags = flags_below kids in
    let result = abort_result st flags answer in
    let answers : ℕ → List Post =
      λ n. messages Tag.abort_reduce (Payload.ints (int_of result ∷ [])) n left in
    let below =
      ap (λ posts. sweeps posts kids)
        (down-messages st flags left result parent l.0 ∙ ap answers l.1)
      ∙ e in
    rw (ups-runs kids answer st.rank left l.3, reduce-runs st flags answer left l.2, below) refl

-- All ranks of a part of the tree have the flag as the result.
abbrev AllKnow : Bool → ℕ → Run (List State) → Type 0
AllKnow f n run =
    (states : List State) × (run ≡ ok states) × (length states ≡ n) × All (Knows f) states

-- The answers to the children, for the first of them.
answers-first :
    (nets : Nets) (net : Net) (result : Bool) (i : ℕ) {states others : List State}
    → rank_of net ≡ i
    → sweep result net ≡ ok states
    → sweeps
        (messages Tag.abort_reduce (Payload.ints (int_of result ∷ [])) (count nets) (i + 1))
        nets
      ≡ ok others
    → sweeps
        (messages Tag.abort_reduce (Payload.ints (int_of result ∷ [])) (count (also net nets)) i)
        (also net nets)
      ≡ ok (states ++ others)
unfolding sweep messages count
answers-first nets net result i here e e' =
    rw (here, recv_flag-first Tag.abort_reduce i result _, e, e') refl

mutual
  unfolding Linked size sweep

  sweep-Knows :
      (net : Net) (answer : Bool) (above : ℕ)
      → Linked (some above) net
      → AllKnow answer (size net) (sweep answer net)
  sweep-Knows (node st left kids) answer above l =
      let flags = flags_below kids in
      let e = result-inner st flags answer l.0 in
      let (states, run, n, knows) =
        sweeps-Knows kids (abort_result st flags answer) st.rank left l.3 in
      (
        concluded (reported st flags) left (abort_result st flags answer) ∷ states,
        sweep-node answer st left kids (some above) l run,
        ap suc n,
        ((e, e), subst (λ f. All (Knows f) states) e knows),
      )

  sweeps-Knows :
      (nets : Nets) (result : Bool) (above first : ℕ)
      → AllLinked above first nets
      → AllKnow result (size_all nets) (
          sweeps
            (messages Tag.abort_reduce (Payload.ints (int_of result ∷ [])) (count nets) first)
            nets)
  sweeps-Knows leaf result above i l = ([], refl, refl, tt)
  sweeps-Knows (also net nets) result above i l =
      let (first, run, n, knows) = sweep-Knows net result above l.1 in
      let (others, run', n', knows') = sweeps-Knows nets result above (i + 1) l.2 in
      (
        first ++ others,
        answers-first nets net result i l.0 run run',
        omega (arith, length-append first others, n, n'),
        All-append _ first others knows knows',
      )

-- Over a whole tree of ranks, in which each rank receives the flags that the calls of its children post
-- to it, and each but the first the answer that the call of its parent posts to it, all calls return,
-- and all ranks end with the same flag, which is set exactly where that of some rank was. What the first
-- rank would be answered does not matter.
pub sweep-agrees :
    (net : Net) (answer : Bool)
    → Linked none net
    → (states : List State) × (sweep answer net ≡ ok states)
      × (length states ≡ size net)
      × All (Knows (any_abort net)) states
unfolding size Linked
sweep-agrees (node st left kids) answer l =
    let flags = flags_below kids in
    let e : abort_result st flags answer ≡ any_abort (node st left kids) =
      result-root st flags answer l.0 ∙ up-below st left kids in
    let (states, run, n, knows) =
      sweeps-Knows kids (abort_result st flags answer) st.rank left l.3 in
    (
      concluded (reported st flags) left (abort_result st flags answer) ∷ states,
      sweep-node answer st left kids none l run,
      ap suc n,
      ((e, e), subst (λ f. All (Knows f) states) e knows),
    )
