-- ===== src/Token.antt =====
-- The ring termination of libcircle/token.c: CIRCLE_token_issend, CIRCLE_token_recv,
-- CIRCLE_token_check and CIRCLE_check_for_term. What MPI_Iprobe finds, and then MPI_Recv returns,
-- is a parameter: `none` where no token has arrived.
pub mod Keeps
pub mod Lap
pub mod Ring
pub mod Round
use libcircle.Prelude.{
  ℕ, suc, ◌+◌, ◌-◌, Bool, true, false, ◌&&◌, ◌||◌, Option, none, some, List, [], ◌∷◌, ltb, ◌==◌,
  if◌then◌else◌, ℤ, pos, minus_one,
}
use libcircle.Sends.{Payload}
use libcircle.State.{Tag, Color, TokenState, State, post}

-- The values of `enum tags`.
abbrev pub code : Color → ℤ
code Color.white = pos 0
code Color.black = pos 1
code Color.terminate = minus_one

abbrev pub is_white : Color → Bool
is_white Color.white = true
is_white Color.black = false
is_white Color.terminate = false

abbrev pub is_black : Color → Bool
is_black Color.white = false
is_black Color.black = true
is_black Color.terminate = false

abbrev pub is_terminate : Color → Bool
is_terminate Color.white = false
is_terminate Color.black = false
is_terminate Color.terminate = true

-- The synchronous send is not tracked: `sending` stays until the token has come back.
unfoldable pub token_issend : State → State
token_issend st =
    if st.abort_flag
    then st
    else record (post st st.token.dest Tag.token (Payload.ints (code st.token.buf ∷ []))) {
      token = record (st.token) { is_local = false; sending = true };
    }

-- MPI_Wait returns when the token that was sent before has been received.
unfoldable pub token_recv : State → Color → State
token_recv st token =
    let proc = if is_black st.token.proc && is_black token then Color.white else st.token.proc in
    let st1 = record st {
      token = record (st.token) { is_local = true; sending = false; buf = token; proc = proc };
    } in
    let st2 = record st1 { token = record (st1.token) { buf = Color.terminate } } in
    let st3 = if ltb st.rank (st.size - 1) then token_issend st2 else st2 in
    if (st.rank == 0 && is_white token) || is_terminate token
    then record st3 { token = record (st3.token) { proc = Color.terminate } }
    else st1

unfoldable pub token_check : State → Option Color → State
token_check st none = st
token_check st (some token) = token_recv st token

-- The color that the token leaves with.
unfoldable pub token_color : State → Color
token_color st =
    if st.rank == 0
    then Color.white
    else if is_black st.token.proc
    then Color.black
    else st.token.buf

-- The new state, and the color that the call returns.
unfoldable pub check_for_term : State → Option Color → State × Color
check_for_term st arrived =
    if is_terminate st.token.proc
    then (st, Color.terminate)
    else if st.token.is_local
    then (let st1 =
          token_issend (record st { token = record (st.token) { buf = token_color st } }) in
        let st2 = record st1 { token = record (st1.token) { proc = Color.white } } in
        (st2, Color.white))
    else (let st1 = token_check st arrived in (st1, st1.token.proc))
