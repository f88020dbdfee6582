-- ===== src/Reduction/Sum.antt =====
-- The final reduction delivers to the root the number of all objects processed and the data of all
-- ranks.
use libcircle.Prelude.{
  ℕ, ◌+◌, ◌^◌, ◌<◌, ◌≡◌, refl, ◌∙◌, ap, Bool, true, none, some, List, [], ◌∷◌, ◌++◌, arith, length,
  lt→ltb, pos,
}
use libcircle.C.{ok, ◌>>=◌, int_limit, Os}
use libcircle.Sends.{Payload}
use libcircle.State.{Tag, State}
use libcircle.Transfer.{to_int}
use libcircle.Collective.Net.{Net, Nets, node, leaf, also, Linked, AllLinked}
use libcircle.Collective.Wire.{news, drop-behind}
use libcircle.Reduction.{
  Callbacks, Reply, numbers, call_init, send_partial, deliver, sync_children, sync_finish,
  reduce_sync,
}
use libcircle.Reduction.Sync.{
  Fits, combining, holding, reduce-holding, child-combined, recv_reply, recv_reply-whole, state_of,
  reduce_net, reduce_nets, processed, processed_all, combined, combined_all,
}

pub to_int-Fits : (n : ℕ) → n < int_limit → to_int n ≡ pos n
to_int-Fits n lt = ground arith

finish-root :
    (cbs : Callbacks) (st : State)
    → st.tree.parent_rank ≡ none
    → sync_finish cbs st ≡ ok (st, deliver cbs st.user)
unfolding sync_finish
finish-root cbs st e = rw e refl

-- The rank when it has sent its partial result to its parent.
abbrev sent_up : State → (above : ℕ) → List ℕ → State
sent_up st above v = record st {
  reduce = record (st.reduce) { bytes = pos (length v) };
  posted =
      (st.posted
        ++ (record {
          dest = above;
          tag = Tag.reduce;
          payload = numbers (record (st.reduce) { bytes = pos (length v) });
        }
            ∷ []))
      ++ (record { dest = above; tag = Tag.reduce; payload = Payload.chars v } ∷ []);
}

send_partial-sent :
    (st : State) (v : List ℕ) {above : ℕ}
    → st.tree.parent_rank ≡ some above
    → st.user ≡ holding v
    → Fits v
    → send_partial st true ≡ ok (sent_up st above v)
unfolding send_partial
send_partial-sent st v e u fits =
    simp (u, to_int-Fits (length v) fits.1, lt→ltb 0 (length v) fits.0, e)

finish-inner :
    (cbs : Callbacks) (st st' : State) {above : ℕ}
    → st.tree.parent_rank ≡ some above
    → send_partial st true ≡ ok st'
    → sync_finish cbs st ≡ ok (st', none)
unfolding sync_finish
finish-inner cbs st st' e p = simp (e, p)

-- What the message of a rank says.
abbrev pub summary : (total : ℕ) → List ℕ → Reply
summary total v = record { valid = true; total = total; bytes = length v; chars = v }

module _ (os : Os) (grants : (n : ℕ) → os.grants n ≡ true) (f : List ℕ → List ℕ → List ℕ)
    (inputs : ℕ → List ℕ) (fini : Bool) (closed : (a b : List ℕ) → Fits a → Fits b → Fits (f a b))
    (input-Fits : (r : ℕ) → Fits (inputs r)) where
  mutual
    unfolding combined

    combined-Fits : (net : Net) → Fits (combined f inputs net)
    combined-Fits (node st left kids) = combined_all-Fits (inputs st.rank) kids (input-Fits st.rank)

    combined_all-Fits : (v : List ℕ) (kids : Nets) → Fits v → Fits (combined_all f inputs v kids)
    combined_all-Fits v leaf h = h
    combined_all-Fits v (also net nets) h =
        combined_all-Fits (f v (combined f inputs net)) nets
          (closed v (combined f inputs net) h (combined-Fits net))

  -- The messages of the ranks right below a rank.
  summaries : Nets → List Reply
  summaries leaf = []
  summaries (also net nets) = summary (processed net) (combined f inputs net) ∷ summaries nets

  -- The rank when its children are in.
  abbrev collected : State → (total : ℕ) → List ℕ → State
  collected st total v = record st {
    reduce = record (st.reduce) { total = total };
    user = holding v;
  }

  children-collected :
      (nets : Nets) (st : State) (r : ℕ) (v : List ℕ)
      → st.user ≡ holding v
      → Fits v
      → st.reduce.total + processed_all nets < 2 ^ 63
      → sync_children os (combining os f (inputs r) fini) st (summaries nets)
        ≡ ok (collected st (st.reduce.total + processed_all nets) (combined_all f inputs v nets))
  unfolding sync_children summaries processed combined
  children-collected leaf st r v e fits small =
      let same : st.reduce.total + 0 ≡ st.reduce.total = omega arith in rw (same, ← e) refl
  children-collected (also net nets) st r v e fits small =
      let p = processed net in
      let w = f v (combined f inputs net) in
      let fits' = closed v (combined f inputs net) fits (combined-Fits net) in
      let st1 = collected st (st.reduce.total + p) w in
      let step =
        child-combined os grants f (inputs r) v (combined f inputs net) fini st p e
          (omega (arith, small)) (combined-Fits net).0 fits'.0 in
      let sum : st.reduce.total + p + processed_all nets
          ≡ st.reduce.total + (p + processed_all nets) =
        omega arith in
      ap (λ m. m >>= λ s. sync_children os (combining os f (inputs r) fini) s (summaries nets)) step
      ∙ children-collected nets st1 r w refl fits' (omega (arith, small, sum))
      ∙ ap (λ t. ok (collected st t (combined_all f inputs w nets))) sum

  -- A rank before its children are in.
  abbrev opened : State → List ℕ → State
  opened st v = record st {
    reduce = record (st.reduce) { valid = true; total = st.local_objects_processed; bytes = pos 0 };
    user = holding v;
  }

  -- A rank with the messages of the ranks right below it.
  opened-collected :
      (st : State) (kids : Nets)
      → st.local_objects_processed + processed_all kids < 2 ^ 63
      → reduce_sync os
          (combining os f (inputs st.rank) fini)
          st
          st.local_objects_processed
          (summaries kids)
        ≡ sync_finish (combining os f (inputs st.rank) fini) (
            collected
              (opened st (inputs st.rank))
              (st.local_objects_processed + processed_all kids)
              (combined_all f inputs (inputs st.rank) kids))
  unfolding reduce_sync call_init
  opened-collected st kids small =
      let v = inputs st.rank in
      let fits = input-Fits st.rank in
      rw
        (
          reduce-holding os grants st.user v fits.0,
          children-collected kids (opened st v) st.rank v refl fits small,
        )
        refl

  -- The state and the answer of a rank below the first.
  abbrev told_up : (above : ℕ) → State → Nets → State
  told_up above st kids =
      sent_up
        (collected (opened st (inputs st.rank)) (st.local_objects_processed + processed_all kids)
          (combined_all f inputs (inputs st.rank) kids))
        above (combined_all f inputs (inputs st.rank) kids)

  inner-told :
      (st : State) (kids : Nets) (above : ℕ)
      → st.tree.parent_rank ≡ some above
      → st.local_objects_processed + processed_all kids < 2 ^ 63
      → reduce_sync os
          (combining os f (inputs st.rank) fini)
          st
          st.local_objects_processed
          (summaries kids)
        ≡ ok (told_up above st kids, none)
  inner-told st kids above e small =
      let v = combined_all f inputs (inputs st.rank) kids in
      let done =
        collected (opened st (inputs st.rank)) (st.local_objects_processed + processed_all kids)
          v in
      opened-collected st kids small
      ∙ finish-inner (combining os f (inputs st.rank) fini) done (sent_up done above v) e (
          send_partial-sent done v e refl
            (combined_all-Fits (inputs st.rank) kids (input-Fits st.rank)))

  -- Its parent receives its part.
  told-heard :
      (st : State) (kids : Nets) (above : ℕ)
      → recv_reply above (news st (told_up above st kids))
        ≡ ok (
            summary
              (st.local_objects_processed + processed_all kids)
              (combined_all f inputs (inputs st.rank) kids))
  told-heard st kids above =
      let v = combined_all f inputs (inputs st.rank) kids in
      ap (recv_reply above) (drop-behind st.posted _ _)
      ∙ recv_reply-whole above (st.local_objects_processed + processed_all kids) v
          (combined_all-Fits (inputs st.rank) kids (input-Fits st.rank)).0

  mutual
    unfolding reduce_net Linked processed combined summaries

    net-summary :
        (net : Net) (above : ℕ)
        → Linked (some above) net
        → processed net < 2 ^ 63
        → (st' : State) × (reduce_net os f inputs fini net ≡ ok (st', none))
          × (recv_reply above (news (state_of net) st')
              ≡ ok (summary (processed net) (combined f inputs net)))
    net-summary (node st left kids) above l small =
        let below = nets-summaries kids st.rank left l.3 (omega (arith, small)) in
        let told = inner-told st kids above l.0 small in
        (told_up above st kids, rw below told, told-heard st kids above)

    nets-summaries :
        (nets : Nets) (above first : ℕ)
        → AllLinked above first nets
        → processed_all nets < 2 ^ 63
        → reduce_nets os f inputs fini above nets ≡ ok (summaries nets)
    nets-summaries leaf above i l small = refl
    nets-summaries (also net nets) above i l small =
        let (st', run, e) = net-summary net above l.1 (omega (arith, small)) in
        let rest = nets-summaries nets above (i + 1) l.2 (omega (arith, small)) in
        simp (run, rest, e)

-- Where all allocations succeed, each rank's user gives its own data to the final reduction, and
-- combines data by a function `f` that keeps sizes that are positive and fit an int; no rank fails,
-- and the root of the whole tree of ranks hands to the user's last function the data of all ranks,
-- combined by `f` from the left in the order of the tree, with its size. Its total is the number of
-- objects that all ranks have processed, where that is below 2^63. Each rank receives the messages
-- that the calls of its children post to it.
pub reduce_net-total :
    (os : Os) (f : List ℕ → List ℕ → List ℕ) (inputs : ℕ → List ℕ) (net : Net)
    → ((n : ℕ) → os.grants n ≡ true)
    → ((a b : List ℕ) → Fits a → Fits b → Fits (f a b))
    → ((r : ℕ) → Fits (inputs r))
    → Linked none net
    → processed net < 2 ^ 63
    → (st' : State) × (reduce_net os f inputs true net
        ≡ ok (st', some (some (combined f inputs net), length (combined f inputs net))))
      × (st'.reduce.total ≡ processed net)
unfolding reduce_net Linked processed combined deliver
reduce_net-total os f inputs (node st left kids) grants closed input-Fits l small =
    let v = inputs st.rank in
    let below =
      nets-summaries os grants f inputs true closed input-Fits kids st.rank left l.3
        (omega (arith, small)) in
    let total = st.local_objects_processed + processed_all kids in
    let done =
      collected os grants f inputs true closed input-Fits
        (opened os grants f inputs true closed input-Fits st v) total
        (combined_all f inputs v kids) in
    let run =
      opened-collected os grants f inputs true closed input-Fits st kids small
      ∙ finish-root (combining os f v true) done l.0 in
    (done, rw below run, refl)
