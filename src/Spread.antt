-- ===== src/Spread.antt =====
-- How many items each requestor gets: spread_counts and the two ways to split of
-- CIRCLE_send_work_to_many in libcircle/token.c.
pub mod Share
use libcircle.Prelude.{
  ℕ, zero, suc, ◌+◌, ◌-◌, ◌*◌, ◌/◌, ◌%◌, Bool, List, [], ◌∷◌, ◌++◌, ◌==◌, if◌then◌else◌, replicate,
}
use libcircle.C.{Run, ok, fault, ◌>>=◌}

-- The two loops write `extra` entries of `base + 1`, and then `base` up to `ranks` entries.
pub spread_counts : (ranks count : ℕ) → Run (List ℕ)
spread_counts ranks count =
    let base = count / ranks in
    let extra = count - base * ranks in
    if ranks == 0 then fault else ok (replicate extra (base + 1) ++ replicate (ranks - extra) base)

-- The random amount to send, for the number that rand_r returned: at most all but one.
pub random_count : (rand count : ℕ) → Run ℕ
random_count rand count =
    let send_count = rand % count + 1 in
    if count == 0 then fault else ok (if send_count == count then send_count - 1 else send_count)

-- `sizes` of the transfer: what this rank keeps, and then what each of `rcount` requestors gets.
pub split_sizes : (equal : Bool) (rand rcount count : ℕ) → Run (List ℕ)
split_sizes equal rand rcount count = if equal then spread_counts (rcount + 1) count else (do
  send_count ← random_count rand count
  rest ← spread_counts rcount send_count
  ok ((count - send_count) ∷ rest))
