-- ===== src/Collective/Agree.antt =====
-- The reduction for termination over a whole tree of ranks: all ranks come to the same answer, and
-- they stop exactly where every rank's flag was set.
use mathlib.Core.Path.{subst}
use libcircle.Prelude.{
  ℕ, suc, ◌+◌, ◌≡◌, refl, sym, ◌∙◌, ap, Bool, true, false, ◌&&◌, Option, none, some, List, [], ◌∷◌,
  ◌++◌, arith, length, length-append, All, All-append, if◌then◌else◌, drop,
}
use libcircle.C.{Run, ok, ◌>>=◌}
use libcircle.Sends.{Payload}
use libcircle.State.{Tag, Color, Post, State}
use libcircle.Collective.{int_of, check_for_term_allreduce}
use libcircle.Collective.Down.{messages}
use libcircle.Collective.Wire.{news, recv_flag, recv_flag-first, drop-append}
use libcircle.Collective.Net.{
  Net, Nets, node, leaf, also, rank_of, count, size, size_all, Linked, AllLinked,
}
use libcircle.Collective.Reduce.{
  conjunction, IsFresh, gathered, report, allreduce-root, allreduce-inner,
}

-- The flag that a rank receives from its child `net`: the message that the first check of the child
-- posts, when the child has received the flags of its own children.
mutual
  pub flag_up : (above : ℕ) → Net → Run Bool
  flag_up above (node st left kids) = do
    flags ← flags_up st.rank kids
    (st1, color) ← check_for_term_allreduce st flags none
    recv_flag Tag.term above (news st st1)

  pub flags_up : (above : ℕ) → Nets → Run (List Bool)
  flags_up above leaf = ok []
  flags_up above (also net nets) =
      let rest = flags_up above nets in do f ← flag_up above net; flags ← rest; ok (f ∷ flags)

-- A rank below the first checks once when the flags of its children are there, and once when the
-- result is, which its parent has posted.
mutual
  pub agree : (result : Bool) → Net → Run (List Color)
  agree result (node st left kids) = do
    flags ← flags_up st.rank kids
    (st1, first) ← check_for_term_allreduce st flags none
    (st2, color) ← check_for_term_allreduce st1 [] (some result)
    colors ← agrees (news st1 st2) kids
    ok (color ∷ colors)

  pub agrees : (posts : List Post) → Nets → Run (List Color)
  agrees posts leaf = ok []
  agrees posts (also net nets) =
      let rest = agrees (drop 1 posts) nets in
      do
        result ← recv_flag Tag.term (rank_of net) posts
        first ← agree result net
        others ← rest
        ok (first ++ others)

-- The first rank, and then all others with what it posts.
pub agree_all : Net → Run (List Color)
agree_all (node st left kids) = do
  flags ← flags_up st.rank kids
  (st1, color) ← check_for_term_allreduce st flags none
  colors ← agrees (news st st1) kids
  ok (color ∷ colors)

mutual
  pub all_set : Net → Bool
  all_set (node st left kids) = st.term.flag && all_sets kids

  pub all_sets : Nets → Bool
  all_sets leaf = true
  all_sets (also net nets) = all_set net && all_sets nets

-- Whether all ranks below have their flags set, for each child.
flags_below : Nets → List Bool
flags_below leaf = []
flags_below (also net nets) = all_set net ∷ flags_below nets

conjunction-below :
    (f : Bool) (kids : Nets) → conjunction f (flags_below kids) ≡ (f && all_sets kids)
unfolding flags_below all_set conjunction
conjunction-below f leaf = ground arith
conjunction-below f (also net nets) = conjunction-below (f && all_set net) nets ∙ ground arith

conjunction-set :
    (st : State) (left : ℕ) (kids : Nets)
    → conjunction st.term.flag (flags_below kids) ≡ all_set (node st left kids)
unfolding all_set
conjunction-set st left kids = conjunction-below st.term.flag kids

length-flags_below : (kids : Nets) → length (flags_below kids) ≡ count kids
unfolding flags_below count
length-flags_below leaf = refl
length-flags_below (also net nets) = ap suc (length-flags_below nets)

-- No rank has begun a reduction, and all transfers have been acknowledged.
unfoldable mutual
  pub Quiet : Net → Type 0
  Quiet (node st left kids) =
      (st.term.up ≡ false) × (st.term.replies ≡ 0) × (st.work_outstanding ≡ 0) × AllQuiet kids

  pub AllQuiet : Nets → Type 0
  AllQuiet leaf = Unit
  AllQuiet (also net nets) = Quiet net × AllQuiet nets

-- What a rank returns for a result.
abbrev pub verdict : Bool → Color
verdict result = if result then Color.terminate else Color.white

-- All ranks of a part of the tree return the verdict.
abbrev pub AllReturn : Color → ℕ → Run (List Color) → Type 0
AllReturn color n run =
    (colors : List Color) × (run ≡ ok colors) × (length colors ≡ n) × All (λ c. c ≡ color) colors

node-IsFresh :
    (parent : Option ℕ) (st : State) (left : ℕ) (kids : Nets)
    → Linked parent (node st left kids)
    → Quiet (node st left kids)
    → IsFresh st left
unfolding Linked Quiet
node-IsFresh parent st left kids l q = record {
  down = q.0;
  none_yet = q.1;
  settled = q.2;
  child = l.2;
}

node-flags :
    (parent : Option ℕ) (st : State) (left : ℕ) (kids : Nets)
    → Linked parent (node st left kids)
    → length (flags_below kids) ≡ st.tree.children
unfolding Linked
node-flags parent st left kids l = length-flags_below kids ∙ sym (l.1)

-- The result as a rank posts it to its `n` children, the ranks from `i` on.
abbrev results : Bool → (n i : ℕ) → List Post
results result n i = messages Tag.term (Payload.ints (int_of result ∷ [])) n i

mutual
  unfolding flag_up Linked Quiet flags_below

  flag_up-runs :
      (net : Net) (above : ℕ)
      → Linked (some above) net
      → Quiet net
      → flag_up above net ≡ ok (all_set net)
  flag_up-runs (node st left kids) above l q =
      let flags = flags_below kids in
      let (first, _) =
        allreduce-inner st left (node-IsFresh (some above) st left kids l q) flags
          (node-flags (some above) st left kids l) above true l.0 in
      rw (flags_up-runs kids st.rank left l.3 q.3, first)
        (ap (recv_flag Tag.term above) (drop-append st.posted _)
          ∙ recv_flag-first Tag.term above (conjunction st.term.flag flags) []
          ∙ ap ok (conjunction-set st left kids))

  flags_up-runs :
      (nets : Nets) (above i : ℕ)
      → AllLinked above i nets
      → AllQuiet nets
      → flags_up above nets ≡ ok (flags_below nets)
  flags_up-runs leaf above i l q = refl
  flags_up-runs (also net nets) above i l q =
      simp (flag_up-runs net above l.1 q.0, flags_up-runs nets above (i + 1) l.2 q.1)

agree-node :
    (st : State) (left above : ℕ) (kids : Nets) (result : Bool) {colors : List Color}
    → Linked (some above) (node st left kids)
    → Quiet (node st left kids)
    → agrees (results result (count kids) left) kids ≡ ok colors
    → agree result (node st left kids) ≡ ok (verdict result ∷ colors)
unfolding agree Linked Quiet
agree-node st left above kids result l q e =
    let flags = flags_below kids in
    let (first, second) =
      allreduce-inner st left (node-IsFresh (some above) st left kids l q) flags
        (node-flags (some above) st left kids l) above result l.0 in
    let posted = report (gathered st flags) (some above) in
    let answers : ℕ → List Post = λ n. results result n left in
    let below =
      ap (λ posts. agrees posts kids)
        (drop-append posted (results result st.tree.children left) ∙ ap answers l.1)
      ∙ e in
    rw (flags_up-runs kids st.rank left l.3 q.3, first, second, below) refl

-- The answers to the children, for the first of them.
results-first :
    (nets : Nets) (net : Net) (result : Bool) (i : ℕ) {first others : List Color}
    → rank_of net ≡ i
    → agree result net ≡ ok first
    → agrees (results result (count nets) (i + 1)) nets ≡ ok others
    → agrees (results result (count (also net nets)) i) (also net nets) ≡ ok (first ++ others)
unfolding agree messages count
results-first nets net result i here e e' =
    rw (here, recv_flag-first Tag.term i result _, e, e') refl

mutual
  unfolding agree Linked Quiet size

  agree-returns :
      (net : Net) (result : Bool) (above : ℕ)
      → Linked (some above) net
      → Quiet net
      → AllReturn (verdict result) (size net) (agree result net)
  agree-returns (node st left kids) result above l q =
      let (colors, run, n, same) = agrees-return kids result st.rank left l.3 q.3 in
      (
        verdict result ∷ colors,
        agree-node st left above kids result l q run,
        ap suc n,
        (refl, same),
      )

  agrees-return :
      (nets : Nets) (result : Bool) (above i : ℕ)
      → AllLinked above i nets
      → AllQuiet nets
      → AllReturn (verdict result) (size_all nets) (agrees (results result (count nets) i) nets)
  agrees-return leaf result above i l q = ([], refl, refl, tt)
  agrees-return (also net nets) result above i l q =
      let (first, run, n, same) = agree-returns net result above l.1 q.0 in
      let (others, run', n', same') = agrees-return nets result above (i + 1) l.2 q.1 in
      (
        first ++ others,
        results-first nets net result i l.0 run run',
        omega (arith, length-append first others, n, n'),
        All-append _ first others same same',
      )

-- Over a whole tree of ranks with no transfer under way, where each rank receives the flags that the
-- calls of its children post to it, and each but the first the result that the call of its parent posts
-- to it, all calls return, and all ranks return the same: TERMINATE exactly where every rank had its
-- flag set, else WHITE.
pub agree_all-returns :
    (net : Net)
    → Linked none net
    → Quiet net
    → AllReturn (verdict (all_set net)) (size net) (agree_all net)
unfolding agree_all Linked Quiet size
agree_all-returns (node st left kids) l q =
    let flags = flags_below kids in
    let result = conjunction st.term.flag flags in
    let root =
      allreduce-root st left (node-IsFresh none st left kids l q) flags
        (node-flags none st left kids l) none l.0 in
    let (colors, run, n, same) = agrees-return kids result st.rank left l.3 q.3 in
    let answers : ℕ → List Post = λ m. results result m left in
    let below =
      ap (λ posts. agrees posts kids)
        (drop-append st.posted (results result st.tree.children left) ∙ ap answers l.1)
      ∙ run in
    (
      verdict result ∷ colors,
      rw (flags_up-runs kids st.rank left l.3 q.3, root, below) refl,
      ap suc n,
      subst (λ f. All (λ c. c ≡ verdict f) (verdict result ∷ colors)) (conjunction-set st left kids)
          (refl, same),
    )
