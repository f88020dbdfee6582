-- ===== src/Transfer/Packet.antt =====
-- What the two messages of a transfer say: the items they carry.
use libcircle.Prelude.{ℕ, ◌+◌, ◌<◌, ◌≡◌, List, ◌∷◌, length, take, All, ℤ, pos}
use libcircle.C.{Mem, int_limit}
use libcircle.Queue.Rep.{Layout, IsShort}
use libcircle.Transfer.{to_int, slice, offsets_from}

-- The messages were cut from a queue with the strings `whole`, of which they carry the last ones
-- pushed, from the offset number `first` on.
pub record IsPacket (items : List (List ℕ)) (header : List ℤ) (bytes : List ℕ) : Type 0 where
  pub base : Mem
  pub offsets : Mem
  pub first : ℕ
  pub len : ℕ
  pub whole : List (List ℕ)
  pub counted : length whole ≡ first + length items
  pub chosen : items ≡ take (length items) whole
  pub some_items : 0 < length items
  pub layout : Layout base offsets (offsets first + len) whole
  pub fits : len < int_limit
  pub header_is :
      header
      ≡ pos (length items) ∷ to_int len ∷ offsets_from offsets (offsets first) (length items) first
  pub bytes_are : bytes ≡ slice base (offsets first) len
  pub short : All IsShort items
