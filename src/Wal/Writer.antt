-- ===== src/Wal/Writer.antt =====
-- `WalWriter` of crates/exg-wal/src/writer.rs, over files that accept every operation: an input or
-- output error is not modelled. A file is named by its first sequence number. The bytes of the
-- current segment are those written to the `BufWriter`; the first `synced` of them are on disk.
use Prim.Native.String.{String}
use exg.Prelude.{
  ℕ, zero, suc, ◌+◌, ◌%◌, ltb, leb, ◌==◌, Bool, true, false, ◌&&◌, Option, none, some, List, [],
  ◌∷◌, ◌++◌, if◌then◌else◌,
}
use exg.Prelude.Lists.{length, take}
use exg.Ids.Snowflake.{word}
use exg.Wal.Record.{
  Bytes, record_overhead, max_payload_size, zeros, Decoded, decoded, incomplete, crc_mismatch,
  encode_record, decode_record,
}

pub record Segment : Type 0 where
  pub first_seq : ℕ
  pub content : Bytes

pub record WalConfig : Type 0 where
  pub segment_size : ℕ
  pub flush_every_n : ℕ

-- `sealed` holds the segments before the current one.
pub record WalWriter : Type 0 where
  pub sealed : List Segment
  pub current : Segment
  pub synced : ℕ
  pub current_segment_bytes : ℕ
  pub next_sequence : ℕ
  pub records_since_flush : ℕ

pub data WalError : Type 0 where
  corrupt : ℕ → String → WalError
  sequence_gap : ℕ → ℕ → WalError
  payload_too_large : ℕ → WalError

pub data Result (A : Type 0) : Type 0 where
  ok : A → Result A
  err : WalError → Result A
  panic : Result A

-- `flush`, with `sync_data`
abbrev pub flush : WalWriter → WalWriter
flush w = record w { synced = length w.current.content; records_since_flush = 0 }

abbrev pub rotate_segment : WalWriter → WalWriter
rotate_segment w = record w {
  sealed = w.sealed ++ (w.current ∷ []);
  current = record { first_seq = w.next_sequence; content = [] };
  synced = 0;
  current_segment_bytes = 0;
}

unfoldable pub make_room : WalConfig → ℕ → WalWriter → WalWriter
make_room config record_size w =
    if ltb 0 w.current_segment_bytes
      && ltb config.segment_size (w.current_segment_bytes + record_size)
    then rotate_segment (flush w)
    else w

-- `write_all` and the counters
abbrev pub write : ℕ → Bytes → WalWriter → WalWriter
write record_size buf w = record w {
  current = record { first_seq = w.current.first_seq; content = w.current.content ++ buf };
  current_segment_bytes = w.current_segment_bytes + record_size;
  next_sequence = (w.next_sequence + 1) % word;
  records_since_flush = w.records_since_flush + 1;
}

unfoldable pub auto_flush : WalConfig → WalWriter → WalWriter
auto_flush config w = if leb config.flush_every_n w.records_since_flush then flush w else w

abbrev pub written : WalConfig → ℕ → WalWriter → Option Bytes → Result (ℕ × WalWriter)
written config record_size w none = panic
written config record_size w (some buf) =
    ok (w.next_sequence, auto_flush config (write record_size buf w))

-- What the scan of a segment ends with.
pub data Scan : Type 0 where
  finished : ℕ → Scan
  torn : ℕ → ℕ → Scan
  gap : ℕ → ℕ → Scan
  mismatch : ℕ → Scan
  out_of_fuel : Scan

-- The result of a record; `go` is the rest of the loop.
unfoldable pub scan_record : Decoded → ℕ → ℕ → (ℕ → ℕ → Scan) → Scan
scan_record (decoded sequence payload consumed) offset next go =
    if sequence == next then go (offset + consumed) ((sequence + 1) % word) else gap next sequence
scan_record incomplete offset next go = torn next offset
scan_record (crc_mismatch sequence) offset next go = mismatch sequence

-- The state after recovery: the next number, and the valid size of a torn last segment.
pub data Recovery : Type 0 where
  recovered : ℕ → Option ℕ → Recovery
  refused : WalError → Recovery
  exhausted : Recovery

-- What a scan means for the rest of the segments; `go` is the rest of the loop.
abbrev pub after_scan : Bool → Scan → (ℕ → Recovery) → Recovery
after_scan last (finished next) go = go next
after_scan last (torn next offset) go =
    if last
    then recovered next (some offset)
    else refused (corrupt next "incomplete record in non-trailing segment")
after_scan last (gap expected found) go = refused (sequence_gap expected found)
after_scan last (mismatch sequence) go = refused (corrupt sequence "CRC mismatch in segment")
after_scan last out_of_fuel go = exhausted

abbrev pub is_last : List Segment → Bool
is_last [] = true
is_last (s ∷ rest) = false

module _ (crc32 : Bytes → ℕ) where
  unfoldable pub append : WalConfig → Bytes → WalWriter → Result (ℕ × WalWriter)
  unfolding make_room auto_flush
  append config payload w =
      let record_size = record_overhead + length payload in
      let w' = make_room config record_size w in
      if ltb max_payload_size (length payload)
      then err (payload_too_large (length payload))
      else written config record_size w'
          (encode_record crc32 (zeros record_size) w'.next_sequence payload)

  -- The loop over the records of a segment, from an offset and a sequence number on.
  unfoldable pub scan_segment : ℕ → Bytes → ℕ → ℕ → Scan
  unfolding scan_record
  scan_segment zero bytes offset next = out_of_fuel
  scan_segment (suc fuel) bytes offset next =
      if leb (length bytes) offset
      then finished next
      else scan_record (decode_record crc32 bytes offset) offset next (scan_segment fuel bytes)

  -- The fuel of a scan is one more than the bytes.
  unfoldable pub recover_state : List Segment → ℕ → Recovery
  recover_state [] next = recovered next none
  recover_state (s ∷ rest) next =
      after_scan (is_last rest) (scan_segment (suc (length s.content)) s.content 0 next)
        (recover_state rest)

-- `set_len` on the last segment
abbrev pub truncate_last : Option ℕ → List Segment → List Segment
truncate_last none segments = segments
truncate_last (some valid_size) [] = []
truncate_last (some valid_size) (s ∷ []) = record s { content = take valid_size s.content } ∷ []
truncate_last (some valid_size) (s ∷ t ∷ rest) = s ∷ truncate_last (some valid_size) (t ∷ rest)

-- A writer that goes on in a segment.
abbrev pub writer_at : List Segment → Segment → ℕ → WalWriter
writer_at sealed current next = record {
  sealed = sealed;
  current = current;
  synced = length current.content;
  current_segment_bytes = length current.content;
  next_sequence = next;
  records_since_flush = 0;
}

abbrev pub empty_segment : ℕ → Segment
empty_segment first_seq = record { first_seq = first_seq; content = [] }

-- A last segment that is full is followed by a new one.
unfoldable pub choose_segment : WalConfig → ℕ → List Segment → WalWriter
choose_segment config next [] = writer_at [] (empty_segment 0) next
choose_segment config next (s ∷ []) =
    if leb config.segment_size (length s.content)
    then writer_at (s ∷ []) (empty_segment next) next
    else writer_at [] s next
choose_segment config next (s ∷ t ∷ rest) =
    let w = choose_segment config next (t ∷ rest) in record w { sealed = s ∷ w.sealed }

-- `panic` stands for spent fuel.
abbrev pub reopened : WalConfig → List Segment → Recovery → Result WalWriter
reopened config segments (recovered next truncate_info) =
    ok (choose_segment config next (truncate_last truncate_info segments))
reopened config segments (refused e) = err e
reopened config segments exhausted = panic

-- The segments of the directory, in the order of their numbers.
unfoldable pub open_wal : (Bytes → ℕ) → WalConfig → List Segment → Result WalWriter
unfolding choose_segment recover_state
open_wal crc32 config segments = reopened config segments (recover_state crc32 segments 0)
