-- ===== src/Wal/Reader.antt =====
-- `read_from` of crates/exg-wal/src/reader.rs, over files that can be read. The callback has a state
-- and answers whether to go on.
use exg.Prelude.{ℕ, zero, suc, ◌+◌, ltb, leb, Bool, true, false, List, [], ◌∷◌, if◌then◌else◌}
use exg.Prelude.Lists.{length}
use exg.Wal.Record.{Bytes, Decoded, decoded, incomplete, crc_mismatch, decode_record}
use exg.Wal.Writer.{Segment}

-- The state of the callback and the records read: at the end of a segment, or where the callback
-- stopped; or an error.
pub data Reading (S : Type 0) : Type 0 where
  going : S → ℕ → Reading S
  stopped : S → ℕ → Reading S
  corrupt : ℕ → Reading S
  out_of_fuel : Reading S

abbrev pub if_going : {S : Type 0} → Reading S → (S → ℕ → Reading S) → Reading S
if_going (going st count) go = go st count
if_going (stopped st count) go = stopped st count
if_going (corrupt sequence) go = corrupt sequence
if_going out_of_fuel go = out_of_fuel

-- The answer of the callback.
abbrev pub answered : {S : Type 0} → S × Bool → ℕ → (S → ℕ → Reading S) → Reading S
answered (st, true) count go = go st (count + 1)
answered (st, false) count go = stopped st (count + 1)

module _ {S : Type 0} (callback : ℕ → Bytes → S → S × Bool) (start_sequence : ℕ) where
  -- `go` is the rest of the loop, from an offset on.
  unfoldable pub read_record : Decoded → ℕ → S → ℕ → (ℕ → S → ℕ → Reading S) → Reading S
  read_record (decoded sequence payload consumed) offset st count go =
      if ltb sequence start_sequence
      then go (offset + consumed) st count
      else answered (callback sequence payload st) count (go (offset + consumed))
  read_record incomplete offset st count go = going st count
  read_record (crc_mismatch sequence) offset st count go = corrupt sequence

  module _ (crc32 : Bytes → ℕ) where
    unfoldable pub read_segment : ℕ → Bytes → ℕ → S → ℕ → Reading S
    unfolding read_record
    read_segment zero bytes offset st count = out_of_fuel
    read_segment (suc fuel) bytes offset st count =
        if leb (length bytes) offset
        then going st count
        else read_record (decode_record crc32 bytes offset) offset st count
            (read_segment fuel bytes)

    unfoldable pub read_segments : List Segment → S → ℕ → Reading S
    unfolding read_segment
    read_segments [] st count = going st count
    read_segments (s ∷ rest) st count =
        if_going (read_segment (suc (length s.content)) s.content 0 st count) (read_segments rest)

-- The segments from the last one on whose first number is not above the start, which a binary
-- search finds; all of them where there is none.
unfoldable pub from_start : ℕ → List Segment → List Segment
from_start start_sequence [] = []
from_start start_sequence (s ∷ []) = s ∷ []
from_start start_sequence (s ∷ t ∷ rest) =
    let later = from_start start_sequence (t ∷ rest) in
    if leb t.first_seq start_sequence then later else s ∷ t ∷ rest

unfoldable pub read_from :
    {S : Type 0} (crc32 : Bytes → ℕ) (callback : ℕ → Bytes → S → S × Bool)
    → ℕ
    → List Segment
    → S
    → Reading S
unfolding read_segments from_start
read_from crc32 callback start_sequence segments st =
    read_segments callback start_sequence crc32 (from_start start_sequence segments) st 0
