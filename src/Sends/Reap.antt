-- ===== src/Sends/Reap.antt =====
-- CIRCLE_worksend_check drops exactly the sends that have completed, and frees exactly their
-- buffers, though it moves cells while it walks over them.
use mathlib.Core.List.{
  Perm, reverse, reverse-append, append_assoc, append-nil, perm_append_singleton,
}
use mathlib.Core.List.Perm
use mathlib.Core.Path.{subst}
use libcircle.Prelude.{
  ℕ, zero, suc, ◌+◌, ◌-◌, ◌≡◌, refl, sym, ◌∙◌, ap, Bool, true, false, Option, some, List, [], ◌∷◌,
  ◌++◌, map, arith, if◌then◌else◌, length, get_elem?, set, take, length-append, Bool-cases, inl,
  inr,
}
use libcircle.C.{Run, ok, ◌>>=◌}
use libcircle.Sends.{Payload, Send, Sends, fill_slot, reap, check}

-- The sends that `done` holds of, and the others.
pub finished : (ℕ → Bool) → List Send → List Send
finished done [] = []
finished done (s ∷ l) = if done s.req then s ∷ finished done l else finished done l

pub pending : (ℕ → Bool) → List Send → List Send
pending done [] = []
pending done (s ∷ l) = if done s.req then pending done l else s ∷ pending done l

finished-append :
    (done : ℕ → Bool) (l r : List Send)
    → finished done (l ++ r) ≡ finished done l ++ finished done r
unfolding finished
finished-append done [] r = refl
finished-append done (s ∷ l) r = ground (arith, finished-append done l r)

pending-append :
    (done : ℕ → Bool) (l r : List Send) → pending done (l ++ r) ≡ pending done l ++ pending done r
unfolding pending
pending-append done [] r = refl
pending-append done (s ∷ l) r = ground (arith, pending-append done l r)

module _ {ℓ} {A : Type ℓ} where
  get_elem?-append : (l r : List A) (j : ℕ) → get_elem? (l ++ r) (length l + j) ≡ get_elem? r j
  get_elem?-append [] r j = let e : 0 + j ≡ j = omega arith in rw e
  get_elem?-append (x ∷ l) r j =
      let e : suc (length l) + j ≡ suc (length l + j) = omega arith in rw e (get_elem?-append l r j)

  take-append : (l r : List A) (n : ℕ) → take (length l + n) (l ++ r) ≡ l ++ take n r
  take-append [] r n = let e : 0 + n ≡ n = omega arith in rw e
  take-append (x ∷ l) r n =
      let e : suc (length l) + n ≡ suc (length l + n) = omega arith in
      rw e (ap (λ t. x ∷ t) (take-append l r n))

  set-append : (l r : List A) (x v : A) → set (l ++ (x ∷ r)) (length l) v ≡ l ++ (v ∷ r)
  set-append [] r x v = refl
  set-append (y ∷ l) r x v = ap (λ t. y ∷ t) (set-append l r x v)

  -- A list that is not empty, from its end.
  record Snoc (l : List A) : Type ℓ where
    front : List A
    last : A
    whole : l ≡ front ++ (last ∷ [])

  snoc : (x : A) (l : List A) → Snoc (x ∷ l)
  snoc x [] = record { front = []; last = x; whole = refl }
  snoc x (y ∷ l) =
      let s = snoc y l in
      record { front = x ∷ s.front; last = s.last; whole = ap (λ t. x ∷ t) s.whole }

-- With at least one cell behind it, a cell is filled by the last.
fill_slot-last :
    (front : List Send) (x : Send) (f : List Send) (l : Send)
    → fill_slot (length front) (front ++ (x ∷ (f ++ (l ∷ [])))) ≡ ok (front ++ (l ∷ f))
unfolding fill_slot
fill_slot-last front x f l =
    let back = f ++ (l ∷ []) in
    let n : length (front ++ (x ∷ back)) - 1 ≡ length front + suc (length f + 0) =
      omega (arith, length-append front (x ∷ back), length-append f (l ∷ [])) in
    rw (
      n,
      get_elem?-append front (x ∷ back) (suc (length f + 0)),
      get_elem?-append f (l ∷ []) 0,
      set-append front back x l,
      take-append front (l ∷ back) (suc (length f + 0)),
      take-append f (l ∷ []) 0,
      append-nil,
    )

-- The cell of a completed send is filled, and the cells behind it are the same but for their order.
fill_slot-perm :
    (front : List Send) (x : Send) (back : List Send)
    → (back' : List Send) × (fill_slot (length front) (front ++ (x ∷ back)) ≡ ok (front ++ back'))
      × Perm back' back
unfolding fill_slot
fill_slot-perm front x [] =
    let n : length (front ++ (x ∷ [])) - 1 ≡ length front + 0 =
      omega (arith, length-append front (x ∷ [])) in
    (
      [],
      rw (
        n,
        get_elem?-append front (x ∷ []) 0,
        set-append front [] x x,
        take-append front (x ∷ []) 0,
      ),
      Perm.refl [],
    )
fill_slot-perm front x (b ∷ back) =
    let s = snoc b back in
    rw s.whole (
      s.last ∷ s.front,
      fill_slot-last front x s.front s.last,
      Perm.symm (perm_append_singleton s.last s.front),
    )

-- What the walk over the cells `front` leaves, when the cells `back` have been walked over.
record Reaped (done : ℕ → Bool) (front back : List Send)
    (r : Run (List Send × List (Option Payload))) : Type 0 where
  left : List Send
  freed : List (Option Payload)
  runs : r ≡ ok (left, freed)
  same : Perm left (pending done front ++ back)
  released : freed ≡ map (λ (t : Send). t.buf) (reverse (finished done front))

module _ (done : ℕ → Bool) (i : ℕ) (front : List Send) (x : Send) (n : length front ≡ i) where
  here : (back : List Send) → get_elem? (front ++ (x ∷ back)) i ≡ some x
  here back =
      let e : i ≡ length front + 0 = omega (arith, n) in rw (e, get_elem?-append front (x ∷ back) 0)

  -- One round at a send that has completed.
  reap-done :
      (back : List Send)
      → done x.req ≡ true
      → ((back' : List Send) → Reaped done front back' (reap done i (front ++ back')))
      → Reaped done (front ++ (x ∷ [])) back (reap done (suc i) (front ++ (x ∷ back)))
  unfolding reap pending finished
  reap-done back d ih =
      let (back', e, p) = fill_slot-perm front x back in
      let r = ih back' in
      let e' : fill_slot i (front ++ (x ∷ back)) ≡ ok (front ++ back') = rw (← n) e in
      record {
        left = r.left;
        freed = x.buf ∷ r.freed;
        runs = rw (here back, d, e', r.runs);
        same =
            rw (pending-append done front (x ∷ []), d, append-nil)
              (Perm.trans r.same (Perm.append_left (pending done front) p));
        released = rw (finished-append done front (x ∷ []), d, reverse-append, r.released);
      }

  -- One round at a send that is still pending.
  reap-kept :
      (back : List Send)
      → done x.req ≡ false
      → ((back' : List Send) → Reaped done front back' (reap done i (front ++ back')))
      → Reaped done (front ++ (x ∷ [])) back (reap done (suc i) (front ++ (x ∷ back)))
  unfolding reap pending finished
  reap-kept back d ih =
      let r = ih (x ∷ back) in
      record {
        left = r.left;
        freed = r.freed;
        runs = rw (here back, d, r.runs);
        same = rw (pending-append done front (x ∷ []), d, append_assoc) r.same;
        released = rw (finished-append done front (x ∷ []), d, append-nil, r.released);
      }

reap-Reaped :
    (done : ℕ → Bool) (i : ℕ) (front back : List Send)
    → length front ≡ i
    → Reaped done front back (reap done i (front ++ back))
unfolding reap pending finished
reap-Reaped done zero [] back e = record {
  left = back;
  freed = [];
  runs = refl;
  same = Perm.refl back;
  released = refl;
}
reap-Reaped done zero (x ∷ front) back e = absurd (omega arith)
reap-Reaped done (suc i) [] back e = absurd (omega arith)
reap-Reaped done (suc i) (y ∷ l) back e =
    let s = snoc y l in
    let n : length s.front ≡ i =
      omega (arith, ap length s.whole, length-append s.front (s.last ∷ [])) in
    let ih = λ (back' : List Send). reap-Reaped done i s.front back' n in
    let whole = s.front ++ (s.last ∷ []) in
    let round : Reaped done whole back (reap done (suc i) (whole ++ back)) =
      rw append_assoc (elim (Bool-cases (done s.last.req)) [
        | inl d ↦ reap-done done i s.front s.last n back d ih
        | inr d ↦ reap-kept done i s.front s.last n back d ih
      ]) in
    subst (λ t. Reaped done t back (reap done (suc i) (t ++ back))) (sym s.whole) round

-- The check never reads outside the arrays. It keeps exactly the sends that have not completed, in
-- some order, and frees exactly the buffers of those that have, each once, the last one first.
pub check-pending :
    (done : ℕ → Bool) (s : Sends)
    → (s' : Sends) × (freed : List (Option Payload)) × (check done s ≡ ok (s', freed))
      × Perm s'.slots (pending done s.slots)
      × (freed ≡ map (λ (t : Send). t.buf) (reverse (finished done s.slots)))
unfolding check
check-pending done s =
    let r = reap-Reaped done (length s.slots) s.slots [] refl in
    (
      record s { slots = r.left },
      r.freed,
      rw (rw append-nil at r.runs),
      rw append-nil at r.same,
      r.released,
    )

-- With nothing outstanding there is nothing to reap.
pub check-none : (done : ℕ → Bool) (s : Sends) → s.slots ≡ [] → check done s ≡ ok (s, [])
unfolding check reap
check-none done s e =
    ap (λ l. reap done (length l) l >>= λ (slots, freed). ok (record s { slots = slots }, freed)) e
    ∙ ap (λ l. ok (record s { slots = l }, [])) (sym e)
