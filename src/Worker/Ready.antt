-- ===== src/Worker/Ready.antt =====
-- The ranks that CIRCLE_init_local_state sets up, as the systems of the ring, of the reduction for
-- termination and of the broadcast of an abort.
use mathlib.Core.Path.{subst}
use native.Mathlib.Nat.{mod-lt}
use libcircle.Prelude.{
  ◌*◌, ◌≤◌, ℕ, zero, suc, ◌+◌, ◌%◌, ◌<◌, ◌≡◌, refl, sym, ◌∙◌, inl, inr, Bool, true, false, none,
  List, [], arith, lt→ltb, le→ltb,
}
use libcircle.State.{State}
use libcircle.Token.{is_terminate}
use libcircle.Token.Ring.{Ring, next_of, IsPlaced}
use libcircle.Collective.Flow.{Flow}
use libcircle.Abort.Alarm.{Alarm}
use libcircle.C.{Run, ok, int_limit, Os}
use libcircle.Queue.{Queue}
use libcircle.Tree.{int_size}
use libcircle.Input.{Input}
use libcircle.Request.Ask.{Hits}
use libcircle.Worker.{init_local_state}
use libcircle.Worker.Setup.{IsReady, next_rank, init_local_state-IsReady}

-- The ranks with the token at the first, and with no message under way.
abbrev pub ring_of : (ℕ → State) → (ℕ → Bool) → Ring
ring_of rank busy = record { rank = rank; busy = busy; flight = none }

abbrev pub flow_of : (ℕ → State) → (ℕ → Bool) → Flow
flow_of rank busy = record {
  rank = rank;
  busy = busy;
  up = λ _. none;
  down = λ _. none;
  work = [];
  receipts = λ _. 0;
}

abbrev pub alarm_of : (ℕ → State) → Alarm
alarm_of rank = record { rank = rank; taken = λ _ _. false }

next_of-mod : (n i : ℕ) → i < n → (i + 1 + n) % n ≡ next_of n i
next_of-mod n i lt =
    let below : (i + 1 + n) % n < n = mod-lt (i + 1 + n) (omega arith) in
    elim (next_rank i n lt) [
      | inl e ↦ e ∙ rw (lt→ltb (i + 1) n (omega (arith, e, below))) refl
      | inr (e, last) ↦ e ∙ rw (le→ltb (i + 1) n (omega (arith, last))) refl
    ]

running : {n k i : ℕ} {st : State} → IsReady i n k st → is_terminate st.token.proc ≡ false
running {i = zero} r = (r.master refl).running
running {i = suc i} r = (r.idle (omega arith)).running

no_abort : {n k i : ℕ} {st : State} → IsReady i n k st → st.abort_flag ≡ false
no_abort {i = zero} r = (r.master refl).no_abort
no_abort {i = suc i} r = (r.idle (omega arith)).no_abort

first_only : {n k i : ℕ} {st : State} → IsReady i n k st → st.token.is_local ≡ true → i ≡ 0
first_only {i = zero} r e = refl
first_only {i = suc i} r e = cc ((r.idle (omega arith)).waiting, e)

IsReady-IsStart :
    (n k : ℕ) (rank : ℕ → State) (busy : ℕ → Bool)
    → ((i : ℕ) → i < n → IsReady i n k (rank i))
    → libcircle.Token.Ring.IsStart n (ring_of rank busy)
      × libcircle.Collective.Flow.IsStart n k (flow_of rank busy)
      × libcircle.Abort.Alarm.IsStart n k (alarm_of rank)
IsReady-IsStart n k rank busy ready = (
  record {
    placed = λ i lt.
        let r = ready i lt in
        record { own = r.own; dest = r.dest ∙ next_of-mod n i lt; no_abort = no_abort r };
    running = λ i lt. running (ready i lt);
    first = λ i lt. first_only (ready i lt);
    holds = λ lt. ((ready 0 lt).master refl).holds;
    none_flies = refl;
  },
  record {
    node = λ i lt. (ready i lt).node;
    is_down = λ i lt. (ready i lt).reduction.down;
    none_heard = λ i lt. (ready i lt).reduction.none_yet;
    owes_none = λ i lt. (ready i lt).reduction.settled;
    no_report = λ i lt. refl;
    no_answer = λ i lt. refl;
    no_work = refl;
    no_receipt = λ i lt. refl;
  },
  record {
    node = λ i lt. (ready i lt).node;
    neighbours = λ i lt. (ready i lt).neighbours;
    quiet = λ i lt. (ready i lt).quiet;
    fresh = λ i j lt. refl;
  },
)

same_state : {st st' : State} → ◌≡◌ {A = Run State} (ok st) (ok st') → st ≡ st'
same_state e = cc e

grows : (i n k : ℕ) → i < n → n * k + k < int_limit → i * k + k < int_limit
grows i n k lt fits = omega (arith, more)
  where
    more : i * k ≤ n * k
    more = grind arith

-- Ranks that CIRCLE_init_local_state has set up, each in its place, are at the start of the ring, of
-- the reduction for termination and of the broadcast of an abort, whoever of them has work: the token
-- is at the first rank and all send it on to the next one of the ring, and the nodes of all are those
-- of one tree, with room for the requests to abort, and with no reduction, no transfer and no abort
-- under way. There is more than one rank, the tree is of positive width, ranks, slots and
-- the tree fit an int, memory for the nodes is granted, no rank has its abort flag set, and its random
-- numbers hit another rank.
pub init_local_state-IsStart :
    (os : Os) (input : Input) (n : ℕ) (queue : ℕ → Queue) (draws : ℕ → List ℕ)
    (old rank : ℕ → State) (busy : ℕ → Bool)
    → 1 < n
    → n + n < int_limit
    → 0 < input.tree_width
    → n * input.tree_width + input.tree_width < int_limit
    → os.grants (input.tree_width * int_size) ≡ true
    → ((i : ℕ) → i < n → (queue i).str_count < int_limit)
    → ((i : ℕ) → i < n → Hits i n (draws i))
    → ((i : ℕ) → i < n → (old i).abort_flag ≡ false)
    → ((i : ℕ) → i < n → init_local_state os input (queue i) i n (draws i) (old i) ≡ ok (rank i))
    → libcircle.Token.Ring.IsStart n (ring_of rank busy)
      × libcircle.Collective.Flow.IsStart n input.tree_width (flow_of rank busy)
      × libcircle.Abort.Alarm.IsStart n input.tree_width (alarm_of rank)
init_local_state-IsStart os input n queue draws old rank busy several small wide fits granted slots
      hits calm runs =
    IsReady-IsStart n input.tree_width rank busy (λ i lt.
      let (st, e, ready) =
        init_local_state-IsReady os input (queue i) i n (draws i) (old i) several lt (omega arith)
          (slots i lt) wide (grows i n input.tree_width lt fits) granted (hits i lt) (calm i lt) in
      subst (IsReady i n input.tree_width) (same_state (sym e ∙ runs i lt)) ready)
