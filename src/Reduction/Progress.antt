-- ===== src/Reduction/Progress.antt =====
-- The reductions that run while the ranks work: what a rank has of its children's replies.
use libcircle.Prelude.{
  ℕ, suc, ◌+◌, ◌^◌, ◌<◌, ◌≡◌, refl, sym, ◌∙◌, ap, Bool, true, false, ◌&&◌, Option, none, some, List,
  [], ◌∷◌, arith, ltb, lt→ltb, ◌==◌, Bool-cases, inl, inr, if◌then◌else◌,
}
use libcircle.C.{ok, ◌>>=◌, Os}
use libcircle.State.{UserData, State}
use libcircle.Reduction.{
  Callbacks, Reply, add_total, receive_data, call_op, deliver, check_child, check_children,
  check_finish, check_outstanding, reduce_check,
}

-- The user's function that combines data returns.
abbrev pub OpReturns : Callbacks → Type 0
OpReturns cbs =
    (user : UserData) (inbuf : Option (List ℕ)) (insize : ℕ)
    → (user' : UserData) × (call_op cbs user inbuf insize ≡ ok user')

-- The replies among what the probes find: their number, the sum of the totals of those that are
-- valid, and whether all are.
pub arrived : List (Option Reply) → ℕ
arrived [] = 0
arrived (none ∷ found) = arrived found
arrived (some reply ∷ found) = suc (arrived found)

abbrev pub counted : Reply → ℕ
counted reply = if reply.valid then reply.total else 0

unfoldable pub totals : List (Option Reply) → ℕ
totals [] = 0
totals (none ∷ found) = totals found
totals (some reply ∷ found) = counted reply + totals found

pub all_valid : List (Option Reply) → Bool
all_valid [] = true
all_valid (none ∷ found) = all_valid found
all_valid (some reply ∷ found) = reply.valid && all_valid found

-- The rank with replies counted.
abbrev pub heard : State → (replies total : ℕ) → (valid : Bool) → UserData → State
heard st replies total valid user = record st {
  reduce = record (st.reduce) { replies = replies; total = total; valid = valid };
  user = user;
}

receive_data-returns :
    (os : Os) (reply : Reply)
    → ((n : ℕ) → os.grants n ≡ true)
    → (inbuf : Option (List ℕ)) × (receive_data os reply ≡ ok inbuf)
unfolding receive_data
receive_data-returns os reply grants = elim (Bool-cases (ltb 0 reply.bytes)) [
  | inl some_ ↦ (some reply.chars, rw (some_, grants reply.bytes) refl)
  | inr none_ ↦ (none, rw none_ refl)
]

valid-call :
    (cbs : Callbacks) (valid : Bool) (user : UserData) (inbuf : Option (List ℕ)) (insize : ℕ)
    → OpReturns cbs
    → (user' : UserData) × ((if valid then call_op cbs user inbuf insize else ok user) ≡ ok user')
valid-call cbs true user inbuf insize h = h user inbuf insize
valid-call cbs false user inbuf insize h = (user, refl)

and-true : (a : Bool) → (a && true) ≡ a
and-true true = refl
and-true false = refl

and-false : (a : Bool) → (a && false) ≡ false
and-false true = refl
and-false false = refl

valid-heard :
    (os : Os) (cbs : Callbacks) (st : State) (t bytes : ℕ) (chars : List ℕ)
    → ((n : ℕ) → os.grants n ≡ true)
    → OpReturns cbs
    → st.reduce.total + t < 2 ^ 63
    → (user : UserData) × (check_child os cbs st
          (record { valid = true; total = t; bytes = bytes; chars = chars })
        ≡ ok (heard st (st.reduce.replies + 1) (st.reduce.total + t) st.reduce.valid user))
unfolding check_child add_total
valid-heard os cbs st t bytes chars grants h small =
    let reply : Reply = record { valid = true; total = t; bytes = bytes; chars = chars } in
    let (inbuf, got) = receive_data-returns os reply grants in
    let (user, called) = valid-call cbs st.reduce.valid st.user inbuf bytes h in
    (user, rw (lt→ltb (st.reduce.total + t) (2 ^ 63) small, got, called) refl)

check_child-heard :
    (os : Os) (cbs : Callbacks) (st : State) (valid : Bool) (t bytes : ℕ) (chars : List ℕ)
    → ((n : ℕ) → os.grants n ≡ true)
    → OpReturns cbs
    → st.reduce.total + (if valid then t else 0) < 2 ^ 63
    → (user : UserData) × (check_child os cbs st
          (record { valid = valid; total = t; bytes = bytes; chars = chars })
        ≡ ok (
            heard st
              (st.reduce.replies + 1)
              (st.reduce.total + (if valid then t else 0))
              (st.reduce.valid && valid)
              user))
unfolding check_child
check_child-heard os cbs st true t bytes chars grants h small =
    let (user, run) = valid-heard os cbs st t bytes chars grants h small in
    (
      user,
      run
          ∙ ap (λ v. ok (heard st (st.reduce.replies + 1) (st.reduce.total + t) v user))
              (sym (and-true st.reduce.valid)),
    )
check_child-heard os cbs st false t bytes chars grants h small =
    let same : st.reduce.total + 0 ≡ st.reduce.total = omega arith in
    (st.user, rw (and-false st.reduce.valid, same) refl)

and_assoc : (a b c : Bool) → ((a && b) && c) ≡ (a && (b && c))
and_assoc true b c = refl
and_assoc false b c = refl

-- The replies that the probes find are all counted: the user's function returns for each, and the
-- totals fit a long long int.
children-heard :
    (os : Os) (cbs : Callbacks) (found : List (Option Reply)) (st : State)
    → ((n : ℕ) → os.grants n ≡ true)
    → OpReturns cbs
    → st.reduce.total + totals found < 2 ^ 63
    → (user : UserData) × (check_children os cbs st found
        ≡ ok (
            heard st
              (st.reduce.replies + arrived found)
              (st.reduce.total + totals found)
              (st.reduce.valid && all_valid found)
              user))
unfolding check_children arrived totals all_valid
children-heard os cbs [] st grants h small =
    let r : st.reduce.replies + 0 ≡ st.reduce.replies = omega arith in
    let t : st.reduce.total + 0 ≡ st.reduce.total = omega arith in
    (st.user, rw (r, t, and-true st.reduce.valid) refl)
children-heard os cbs (none ∷ found) st grants h small =
    children-heard os cbs found st grants h small
children-heard os cbs (some reply ∷ found) st grants h small =
    let (user1, first) =
      check_child-heard os cbs st reply.valid reply.total reply.bytes reply.chars grants h
        (omega (arith, small)) in
    let total = st.reduce.total + counted reply in
    let st1 = heard st (st.reduce.replies + 1) total (st.reduce.valid && reply.valid) user1 in
    let (user, rest) = children-heard os cbs found st1 grants h (omega (arith, small)) in
    let r : st.reduce.replies + 1 + arrived found ≡ st.reduce.replies + suc (arrived found) =
      omega arith in
    let t : total + totals found ≡ st.reduce.total + (counted reply + totals found) = omega arith in
    (
      user,
      ap (λ m. m >>= λ s. check_children os cbs s found) first
          ∙ rest
          ∙ ap
              (λ n. ok (
                heard st n (total + totals found)
                  ((st.reduce.valid && reply.valid) && all_valid found) user))
              r
          ∙ ap
              (λ n. ok (
                heard st (st.reduce.replies + suc (arrived found)) n
                  ((st.reduce.valid && reply.valid) && all_valid found) user))
              t
          ∙ ap
              (λ b. ok (
                heard st (st.reduce.replies + suc (arrived found))
                  (st.reduce.total + (counted reply + totals found)) b user))
              (and_assoc st.reduce.valid reply.valid (all_valid found)),
    )

-- The root when the reduction is over, with its own count.
abbrev pub closed : State → (replies total : ℕ) → (valid : Bool) → UserData → State
closed st replies total valid user = record st {
  reduce = record (st.reduce) {
    outstanding = false;
    replies = replies;
    total = total;
    valid = valid;
  };
  user = user;
}

finish-root :
    (cbs : Callbacks) (st : State) (count : ℕ)
    → st.tree.parent_rank ≡ none
    → st.reduce.total + count < 2 ^ 63
    → check_finish cbs st count
      ≡ ok (
        closed st st.reduce.replies (st.reduce.total + count) st.reduce.valid st.user,
        if st.reduce.valid then deliver cbs st.user else none,
      )
unfolding check_finish add_total
finish-root cbs st count p small = simp (lt→ltb (st.reduce.total + count) (2 ^ 63) small, p)

-- A call at the root while a reduction is under way returns, where memory is granted, the user's
-- function returns for each reply, and the sum fits a long long int. It counts the replies that it
-- finds, and adds the totals of those that are valid. When no reply is missing it adds the count of
-- the root, and the reduction is over: the user gets the data exactly where all replies have been
-- valid, those of earlier calls included. Before that the user gets nothing.
pub reduce_check-root :
    (os : Os) (cbs : Callbacks) (st : State) (count : ℕ) (cleanup due kicked : Bool)
    (found : List (Option Reply))
    → ((n : ℕ) → os.grants n ≡ true)
    → OpReturns cbs
    → st.tree.parent_rank ≡ none
    → st.reduce.outstanding ≡ true
    → st.reduce.total + totals found + count < 2 ^ 63
    → let replies = st.reduce.replies + arrived found in
      let total = st.reduce.total + totals found in
      let valid = st.reduce.valid && all_valid found in
      (user : UserData) × (reduce_check os cbs st count cleanup due kicked found
        ≡ ok (
            if replies == st.tree.children
            then (
              closed st replies (total + count) valid user,
              if valid then deliver cbs user else none,
            )
            else (heard st replies total valid user, none)))
unfolding reduce_check check_outstanding
reduce_check-root os cbs st count cleanup due kicked found grants h p o small =
    let (user, run) = children-heard os cbs found st grants h (omega (arith, small)) in
    let replies = st.reduce.replies + arrived found in
    let total = st.reduce.total + totals found in
    let valid = st.reduce.valid && all_valid found in
    let st1 = heard st replies total valid user in
    (
      user,
      elim (Bool-cases (replies == st.tree.children)) [
        | inl all ↦ rw (run, all, finish-root cbs st1 count p small, o) refl
        | inr missing ↦ rw (run, missing, o) refl
      ],
    )
