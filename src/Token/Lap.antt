-- ===== src/Token/Lap.antt =====
-- A lap of the token around the ring of idle ranks gathers their colors.
use libcircle.Prelude.{
  ◌<◌, ◌≡◌, refl, ◌∙◌, ap, Bool, true, false, ◌&&◌, ◌||◌, none, some, List, [], ◌∷◌, arith, ◌==◌,
  if◌then◌else◌, pos→==zero, All,
}
use libcircle.Sends.{Payload}
use libcircle.State.{Tag, Color, State, post}
use libcircle.Token.{
  code, is_black, is_terminate, token_issend, token_recv, token_check, token_color, check_for_term,
}

-- An idle rank finds the token, and with its next check passes it on.
pub visit : State → Color → State
visit st token = (check_for_term (check_for_term st (some token)).0 none).0

-- The token goes from rank to rank. The result is their states, and the color in the end.
unfoldable pub lap : List State → Color → List State × Color
lap [] token = ([], token)
lap (st ∷ states) token =
    let st' = visit st token in
    let (states', token') = lap states st'.token.buf in (st' ∷ states', token')

-- A rank other than the first that takes part in a lap: it is not told to stop, and waits for the
-- token.
pub record IsIdle (st : State) : Type 0 where
  pub not_first : 0 < st.rank
  pub running : is_terminate st.token.proc ≡ false
  pub waiting : st.token.is_local ≡ false
  pub no_abort : st.abort_flag ≡ false

-- The rank after it has sent the token on.
abbrev pub passed_on : State → Color → State
passed_on st c = record (post st st.token.dest Tag.token (Payload.ints (code c ∷ []))) {
  token = record (st.token) { is_local = false; proc = Color.white; buf = c; sending = true };
}

-- The rank when it has received the token.
abbrev pub received : State → Color → State
received st c = record st {
  token = record (st.token) {
    is_local = true;
    sending = false;
    buf = c;
    proc = if is_black st.token.proc && is_black c then Color.white else st.token.proc;
  };
}

pub token_recv-running :
    (st : State) (token : Color)
    → (st.rank == 0) ≡ false
    → is_terminate token ≡ false
    → token_recv st token ≡ received st token
unfolding token_recv
token_recv-running st token e t = rw (e, t) refl

pub check-arrived :
    (st : State) (token : Color)
    → is_terminate st.token.proc ≡ false
    → st.token.is_local ≡ false
    → (check_for_term st (some token)).0 ≡ token_recv st token
unfolding check_for_term token_check
check-arrived st token e l = rw (e, l) refl

pub check-pass :
    (st : State)
    → is_terminate st.token.proc ≡ false
    → st.token.is_local ≡ true
    → st.abort_flag ≡ false
    → (check_for_term st none).0 ≡ passed_on st (token_color st)
unfolding check_for_term token_issend
check-pass st e l a = rw (e, l, a) refl

-- The color that the token leaves with, for the color it came with.
abbrev pub darker : Color → Color → Color
darker proc token = if is_black proc || is_black token then Color.black else Color.white

token_color-received :
    (st : State) (token : Color)
    → (st.rank == 0) ≡ false
    → is_terminate token ≡ false
    → token_color (received st token) ≡ darker st.token.proc token
unfolding token_color
token_color-received st Color.terminate e t = cc t
token_color-received st Color.white e t = rw e (ground arith)
token_color-received st Color.black e t = rw e (ground arith)

pub received-running :
    (proc token : Color)
    → is_terminate proc ≡ false
    → is_terminate (if is_black proc && is_black token then Color.white else proc) ≡ false
received-running proc token e = ground arith

pub visit-runs :
    (st : State) (token : Color)
    → IsIdle st
    → is_terminate token ≡ false
    → visit st token ≡ passed_on st (darker st.token.proc token)
unfolding visit
visit-runs st token h t =
    let first = pos→==zero st.rank h.not_first in
    let got : (check_for_term st (some token)).0 ≡ received st token =
      check-arrived st token h.running h.waiting ∙ token_recv-running st token first t in
    ap (λ s. (check_for_term s none).0) got
    ∙ check-pass (received st token) (received-running st.token.proc token h.running) refl
        h.no_abort
    ∙ ap (passed_on st) (token_color-received st token first t)

pub darker-running : (proc token : Color) → is_terminate (darker proc token) ≡ false
darker-running proc token = ground arith

passed_on-IsIdle : {st : State} (c : Color) → IsIdle st → IsIdle (passed_on st c)
passed_on-IsIdle c h = record {
  not_first = h.not_first;
  running = refl;
  waiting = refl;
  no_abort = h.no_abort;
}

-- Some rank is black.
pub any_black : List State → Bool
any_black [] = false
any_black (st ∷ states) = is_black st.token.proc || any_black states

-- The color of a token after ranks some of which may be black.
abbrev pub gathered : Bool → Color → Color
gathered dark token = if dark || is_black token then Color.black else Color.white

gathered-darker :
    (proc token : Color) (dark : Bool)
    → gathered dark (darker proc token) ≡ gathered (is_black proc || dark) token
gathered-darker Color.white token dark = ground arith
gathered-darker Color.black token dark = ground arith
gathered-darker Color.terminate token dark = ground arith

gathered-none : (token : Color) → is_terminate token ≡ false → token ≡ gathered false token
gathered-none Color.white t = refl
gathered-none Color.black t = refl
gathered-none Color.terminate t = cc t

-- A lap of a token that is white or black over idle ranks other than the first turns it black if
-- one of them is black or it was black before, else it is white; it leaves every rank idle and
-- white.
pub lap-gathers :
    (states : List State) (token : Color)
    → All IsIdle states
    → is_terminate token ≡ false
    → ((lap states token).1 ≡ gathered (any_black states) token)
      × All IsIdle (lap states token).0
      × (any_black (lap states token).0 ≡ false)
unfolding lap any_black
lap-gathers [] token h t = (gathered-none token t, tt, refl)
lap-gathers (st ∷ states) token h t =
    let c = darker st.token.proc token in
    let r = lap-gathers states c h.1 (darker-running st.token.proc token) in
    rw (visit-runs st token h.0 t) (
      r.0 ∙ gathered-darker st.token.proc token (any_black states),
      (passed_on-IsIdle c h.0, r.1),
      r.2,
    )
