-- ===== src/Token/Keeps.antt =====
-- The check for termination over the ring keeps what `Keeps` names.
use libcircle.Prelude.{◌-◌, true, false, ◌&&◌, ◌||◌, Option, none, some, ltb, ◌==◌, if◌then◌else◌}
use libcircle.State.{Color, State}
use libcircle.State.Keeps.{Keeps, keeps, Keeps-if, Keeps-if_pair}
use libcircle.Token.{
  is_white, is_black, is_terminate, token_issend, token_recv, token_check, token_color,
  check_for_term,
}

token_issend-Keeps : (st : State) → Keeps st (token_issend st)
unfolding token_issend
token_issend-Keeps st = Keeps-if st.abort_flag st st _ (keeps st) (keeps st)

token_recv-Keeps : (st : State) (token : Color) → Keeps st (token_recv st token)
unfolding token_recv
token_recv-Keeps st token =
    let proc = if is_black st.token.proc && is_black token then Color.white else st.token.proc in
    let st1 = record st {
      token = record (st.token) { is_local = true; sending = false; buf = token; proc = proc };
    } in
    let st2 = record st1 { token = record (st1.token) { buf = Color.terminate } } in
    let last = ltb st.rank (st.size - 1) in
    let k3 : Keeps st (if last then token_issend st2 else st2) =
      Keeps-if last st (token_issend st2) st2 (token_issend-Keeps st2) (keeps st) in
    Keeps-if ((st.rank == 0 && is_white token) || is_terminate token) st _ st1 k3 (keeps st)

pub token_check-Keeps : (st : State) (arrived : Option Color) → Keeps st (token_check st arrived)
unfolding token_check
token_check-Keeps st none = keeps st
token_check-Keeps st (some token) = token_recv-Keeps st token

pub check_for_term-Keeps :
    (st : State) (arrived : Option Color) → Keeps st (check_for_term st arrived).0
unfolding check_for_term
check_for_term-Keeps st arrived =
    let st1 = record st { token = record (st.token) { buf = token_color st } } in
    let st2 = token_issend st1 in
    Keeps-if_pair (is_terminate st.token.proc) st (st, Color.terminate) _ (keeps st)
      (Keeps-if_pair st.token.is_local st
        (record st2 { token = record (st2.token) { proc = Color.white } }, Color.white)
        (token_check st arrived, (token_check st arrived).token.proc) (token_issend-Keeps st1)
        (token_check-Keeps st arrived))
