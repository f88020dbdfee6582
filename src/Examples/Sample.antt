-- ===== src/Examples/Sample.antt =====
-- A machine, queues and a rank to run the code on.
use libcircle.Prelude.{ℕ, refl, true, false, none, some, List, [], ◌∷◌, arith, pos}
use libcircle.C.{Os, Mem, store}
use libcircle.C.Strings.{NoZero}
use libcircle.Queue.{Queue}
use libcircle.Queue.Rep.{Holds, HasRoom}
use libcircle.Handle.Stack.{HasRoomFor}
use libcircle.Sends.{Sends}
use libcircle.Sends.Track.{IsTracked}
use libcircle.State.{Color, State}
use libcircle.Receive.Accept.{IsWaiting}

-- All memory is granted, in pages of 4096 bytes.
abbrev pub machine : Os
machine = record { grants = λ n. true; junk = λ a. 0; page_size = 4096 }

abbrev pub letter_a : List ℕ
letter_a = b'a' ∷ []

abbrev pub letter_b : List ℕ
letter_b = b'b' ∷ []

abbrev pub letters : List (List ℕ)
letters = letter_b ∷ letter_a ∷ []

abbrev pub pool : Mem
pool = store (store (λ a. 0) 0 b'a') 2 b'b'

abbrev pub starts : Mem
starts = store (λ a. 0) 1 2

-- The queue that holds "a" and on top of it "b".
abbrev pub two_items : Queue
two_items = record {
  base = some pool;
  bytes = 4;
  head = 4;
  strings = some starts;
  str_count = 2;
  count = 2;
}

pub two_items-Holds : Holds two_items letters
two_items-Holds = record {
  base = pool;
  offsets = starts;
  has_base = refl;
  has_offsets = refl;
  counted = refl;
  slots = omega arith;
  few = omega arith;
  within = omega arith;
  small = omega arith;
  layout = ((refl, omega arith, refl), omega arith, ((refl, omega arith, refl), omega arith, tt));
  short = (omega arith, (omega arith, tt));
}

abbrev pub no_items : Queue
no_items = record {
  base = some pool;
  bytes = 4;
  head = 0;
  strings = some starts;
  str_count = 2;
  count = 0;
}

pub no_items-Holds : Holds no_items []
no_items-Holds = record {
  base = pool;
  offsets = starts;
  has_base = refl;
  has_offsets = refl;
  counted = refl;
  slots = omega arith;
  few = omega arith;
  within = omega arith;
  small = omega arith;
  layout = tt;
  short = tt;
}

pub letter_a-NoZero : NoZero letter_a
letter_a-NoZero = (omega arith, tt)

pub two_items-HasRoom : HasRoom machine two_items
two_items-HasRoom = record {
  step_pos = omega arith;
  strings_room = omega arith;
  bytes_room = omega arith;
}

pub two_items-HasRoomFor : HasRoomFor machine 3 two_items
two_items-HasRoomFor = record {
  grants = λ k. refl;
  step_pos = omega arith;
  strings_room = omega arith;
  bytes_room = omega arith;
}

pub no_items-HasRoomFor : HasRoomFor machine 2 no_items
no_items-HasRoomFor = record {
  grants = λ k. refl;
  step_pos = omega arith;
  strings_room = omega arith;
  bytes_room = omega arith;
}

abbrev pub no_sends : Sends
no_sends = record { slots = []; capacity = 0; next_req = 7 }

pub no_sends-IsTracked : IsTracked no_sends
no_sends-IsTracked = record { inside = omega arith }

-- A rank of two before its first message.
abbrev pub idle : (rank : ℕ) → State
idle rank = record {
  rank = rank;
  size = 2;
  token = record {
    is_local = false;
    proc = Color.white;
    buf = Color.black;
    src = 0;
    dest = 0;
    sending = false;
  };
  offsets = record { count = 0; recv_buf = some (λ a. pos 0) };
  next_processor = none;
  work_requested = false;
  work_requested_rank = 0;
  request_pending = false;
  sends = no_sends;
  tree = record { rank = rank; ranks = 2; parent_rank = none; children = 0; child_ranks = [] };
  reduce = record {
    enabled = false;
    outstanding = false;
    replies = 0;
    valid = true;
    total = 0;
    bytes = pos 0;
  };
  user = record { buf = none; size = 0 };
  term_tree_enabled = true;
  abort = record { active = false; outstanding = false; num_req = 2 };
  local_objects_processed = 0;
  barrier = record { started = false; up = false; replies = 0 };
  work_outstanding = 0;
  term = record { flag = false; up = false; replies = 0 };
  abort_flag = false;
  local_work_requested = 0;
  local_no_work_received = 0;
  posted = [];
}

pub idle-IsWaiting : IsWaiting machine no_items (idle 1) 2
idle-IsWaiting = record {
  granted = λ k. refl;
  empty = no_items-Holds;
  space = record { step_pos = omega arith; bytes_room = omega arith; slots_room = omega arith };
  cells = λ a. pos 0;
  has_cells = refl;
  cells_room = omega arith;
  tracked = no_sends-IsTracked;
  sends_room = omega arith;
}
