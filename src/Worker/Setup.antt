-- ===== src/Worker/Setup.antt =====
-- What CIRCLE_init_local_state sets up.
use libcircle.Prelude.{
  ℕ, zero, suc, ◌+◌, ◌-◌, ◌*◌, ◌%◌, ◌<◌, ◌≤◌, ◌≡◌, ◌≢◌, refl, ◌∙◌, ap, ◌⊎◌, inl, inr, true, false,
  Option, none, some, List, arith, Bool-cases, ltb→lt, lt→ltb, ltb, ◌==◌, if◌then◌else◌, is_none,
}
use native.Mathlib.Nat.{mod-lt, mod_self, mod-eq_of_lt, add-mod_right}
use libcircle.C.{ok, int_limit, Os}
use libcircle.Queue.{Queue}
use libcircle.Sends.Track.{IsTracked}
use libcircle.State.{State}
use libcircle.Tree.{Tree, int_size}
use libcircle.Tree.Node.{IsNode, init-IsNode}
use libcircle.Input.{Input, term_tree, has_option}
use libcircle.Reduction.{is_positive}
use libcircle.Request.{get_next_proc}
use libcircle.Request.Rest.{get_next_proc-alone}
use libcircle.Request.Ask.{Hits, CanAsk, get_next_proc-other}
use libcircle.Token.Lap.{IsIdle}
use libcircle.Token.Round.{IsMaster}
use libcircle.Collective.Barrier.{IsBarrier}
use libcircle.Collective.Reduce.{IsFresh}
use libcircle.Abort.Spread.{requests, HasNeighbours}
use libcircle.Worker.Alone.{IsAlone}
use libcircle.Worker.{fresh, init_local_state}
use libcircle.Worker.Cleanup.{is_settled}

-- A rank that has its place in the tree and in the ring, and for which all protocols are at rest.
pub record IsReady (rank size k : ℕ) (st : State) : Type 0 where
  pub own : st.rank ≡ rank
  pub ranks : st.size ≡ size
  pub dest : st.token.dest ≡ (rank + 1 + size) % size
  pub node : IsNode rank size k st.tree
  pub neighbours : HasNeighbours st (rank * k + 1)
  pub not_started : st.barrier.started ≡ false
  pub none_in : st.barrier.replies ≡ 0
  pub none_told : st.barrier.up ≡ false
  pub quiet : st.abort.active ≡ false
  pub reduction : IsFresh st (rank * k + 1)
  pub barrier : IsBarrier st (rank * k + 1)
  pub tracked : IsTracked st.sends
  pub settled : is_settled st ≡ true
  pub master : rank ≡ 0 → IsMaster st
  pub idle : 0 < rank → IsIdle st
  pub next : ℕ
  pub exists : next < size
  pub other : next ≢ rank
  pub asks : CanAsk st next

requests-room :
    (parent : Option ℕ) (children : ℕ)
    → requests parent children ≤ 2 * (if is_none parent then children else children + 1)
requests-room none children = omega arith
requests-room (some rank) children = omega arith

is-zero : (n : ℕ) → n ≡ 0 → (n == 0) ≡ true
is-zero n e = ground arith

is-pos : (n : ℕ) → 0 < n → (n == 0) ≡ false
is-pos n h = ground arith

pub init_local_state-runs :
    (os : Os) (input : Input) (q : Queue) (rank size : ℕ) (draws : List ℕ) (old st : State)
    (t : Tree)
    → 0 < size
    → rank + 1 + size < int_limit
    → q.str_count < int_limit
    → get_next_proc (record old { rank = rank; size = size }) draws ≡ ok st
    → libcircle.Tree.init os rank size input.tree_width ≡ ok t
    → init_local_state os input q rank size draws old ≡ ok (fresh os input q t st)
unfolding init_local_state
init_local_state-runs os input q rank size draws old st t h small slots e e' =
    rw
      (
        lt→ltb 0 size h,
        lt→ltb (rank + 1 + size) int_limit small,
        lt→ltb q.str_count int_limit slots,
        e,
        e',
      )
      refl

-- Where the allocations succeed, a rank of several is set up with its place in the tree of the width
-- that the user chose, with room for its abort messages, with no transfer, reduction, barrier or abort
-- under way and nothing outstanding; the token is at the first rank, and waited for at the others; and
-- it may ask a rank for work, which it has picked and which is not itself. The abort flag must not
-- be set, the ranks and slots must fit an int, and the random numbers must hit another rank.
pub init_local_state-IsReady :
    (os : Os) (input : Input) (q : Queue) (rank size : ℕ) (draws : List ℕ) (old : State)
    → 1 < size
    → rank < size
    → rank + 1 + size < int_limit
    → q.str_count < int_limit
    → 0 < input.tree_width
    → rank * input.tree_width + input.tree_width < int_limit
    → os.grants (input.tree_width * int_size) ≡ true
    → Hits rank size draws
    → old.abort_flag ≡ false
    → (st : State) × (init_local_state os input q rank size draws old ≡ ok st)
      × IsReady rank size input.tree_width st
unfolding fresh is_settled
init_local_state-IsReady os input q rank size draws old several own small slots wide fits granted
      hits calm =
    let k = input.tree_width in
    let base = record old { rank = rank; size = size } in
    let (p, e, lt, other) = get_next_proc-other base draws several hits in
    let (t, e', node) = init-IsNode os rank size k wide fits granted in
    (
      fresh os input q t (record base { next_processor = some p }),
      init_local_state-runs os input q rank size draws old (record base { next_processor = some p })
          t (omega arith) small slots e e',
      record {
        own = refl;
        ranks = refl;
        dest = refl;
        node = node;
        neighbours = record { room = requests-room t.parent_rank t.children; child = node.child };
        not_started = refl;
        none_in = refl;
        none_told = refl;
        quiet = refl;
        reduction = record { down = refl; none_yet = refl; settled = refl; child = node.child };
        barrier = record { counted = omega arith; told_after = inl refl; child = node.child };
        tracked = record { inside = omega arith };
        settled = refl;
        master = λ z. record { first = z; running = refl; holds = is-zero rank z; no_abort = calm };
        idle =
            λ z. record { not_first = z; running = refl; waiting = is-pos rank z; no_abort = calm };
        next = p;
        exists = lt;
        other = other;
        asks = record {
          several = several;
          no_abort = calm;
          not_asked = refl;
          nothing_sent = refl;
          picked = refl;
        };
      },
    )

-- The next of `n` ranks in the ring, and the one before that.
pub next_rank :
    (r n : ℕ) → r < n → ((r + 1 + n) % n ≡ r + 1) ⊎ (((r + 1 + n) % n ≡ 0) × (r + 1 ≡ n))
next_rank r n lt =
    let turn = add-mod_right (r + 1) n in
    elim (Bool-cases (ltb (r + 1) n)) [
      | inl inner ↦ inl (turn ∙ mod-eq_of_lt (ltb→lt (r + 1) n inner))
      | inr last ↦
          let e : r + 1 ≡ n = ground arith in inr (turn ∙ ap (λ a. a % n) e ∙ mod_self n, e)
    ]

ring : (r n d : ℕ) → r < n → d ≡ (r + 1 + n) % n → (d + n - 1) % n ≡ r
ring r n d lt e = elim (next_rank r n lt) [
  | inl f ↦
      let s : d + n - 1 ≡ r + n = omega (arith, e, f) in
      ap (λ a. a % n) s ∙ add-mod_right r n ∙ mod-eq_of_lt lt
  | inr (f, last) ↦
      let s : d + n - 1 ≡ r = omega (arith, e, f, last) in ap (λ a. a % n) s ∙ mod-eq_of_lt lt
]

-- The token that a rank sends goes to a rank of the communicator, and that rank waits for tokens from
-- this one: the ring of the two fields closes.
pub ring-closes :
    (os : Os) (input input' : Input) (q q' : Queue) (t t' : Tree) (st st' : State)
    → st.rank < st.size
    → st'.size ≡ st.size
    → st'.rank ≡ (fresh os input q t st).token.dest
    → ((fresh os input q t st).token.dest < st.size)
      × ((fresh os input' q' t' st').token.src ≡ st.rank)
unfolding fresh
ring-closes os input input' q q' t t' st st' own same dest =
    let e : st'.rank ≡ (st.rank + 1 + st.size) % st.size = dest in
    (mod-lt (st.rank + 1 + st.size) (omega arith), rw same (ring st.rank st.size st'.rank own e))

zero-children : (k n : ℕ) → (0 < n → 0 * k + 1 + n ≤ 1) → n ≡ 0
zero-children k zero h = refl
zero-children k (suc n) h = absurd (omega (arith, h (omega arith)))

-- The only rank of a communicator.
pub init_local_state-IsAlone :
    (os : Os) (input : Input) (q : Queue) (draws : List ℕ) (old : State)
    → q.str_count < int_limit
    → 0 < input.tree_width
    → input.tree_width < int_limit
    → os.grants (input.tree_width * int_size) ≡ true
    → has_option input.options term_tree ≡ true
    → is_positive input.reduce_period ≡ false
    → (st : State) × (init_local_state os input q 0 1 draws old ≡ ok st)
      × IsAlone st
      × (st.abort_flag ≡ old.abort_flag)
      × (st.local_objects_processed ≡ 0)
unfolding fresh
init_local_state-IsAlone os input q draws old slots wide narrow granted tree none_ =
    let base = record old { rank = 0; size = 1 } in
    let (t, e, node) = init-IsNode os 0 1 input.tree_width wide (omega arith) granted in
    let no_child : t.children ≡ 0 = zero-children input.tree_width t.children node.inside in
    (
      fresh os input q t (record base { next_processor = none }),
      init_local_state-runs os input q 0 1 draws old (record base { next_processor = none }) t
          (omega arith) (omega arith) slots (get_next_proc-alone base draws refl) e,
      record {
        root = node.root refl;
        leaf = no_child;
        nobody = refl;
        no_sends = refl;
        not_asked = refl;
        nothing_sent = refl;
        no_token = refl;
        by_tree = tree;
        no_transfer = refl;
        term_flag = refl;
        term_down = refl;
        term_none = refl;
        no_reduction = none_;
        reduced = refl;
        no_alarm = refl;
        barrier_up = refl;
        barrier_none = refl;
      },
      refl,
      refl,
    )
