-- ===== src/Wal/Tests.antt =====
-- The theorems on crates/exg-wal for a sum as the checksum, and segments of 40 bytes.
use exg.Prelude.{ℕ, ◌+◌, ◌%◌, ◌<◌, ◌≤◌, ◌≡◌, ◌≢◌, refl, Bool, ltb, some, List, [], ◌∷◌, ◌++◌, arith}
use exg.Prelude.Lists.{take}
use exg.Wal.Record.{Bytes, zeros, decoded, incomplete, encode_record, decode_record}
use exg.Wal.Writer.{WalConfig, WalWriter, ok, panic, writer_at, append, open_wal}
use exg.Wal.Scanning.{records}
use exg.Wal.Durable.{files_of, Holds}
use exg.Wal.Reader.{read_from}
use exg.Wal.Reopening.{crashed, segment_of, writer_at-Holds}
use exg.Wal.Framing.{decode_record-encode_record}
use exg.Wal.Opening.{open_wal_total}
use exg.Wal.Appending.{append-Holds}
use exg.Wal.Crash.{Reopened, open_wal-crashed}
use exg.Wal.Delivery.{deliver, read_from-deliver}

sum_of : Bytes → ℕ
sum_of [] = 0
sum_of (b ∷ bs) = b + sum_of bs

checksum : Bytes → ℕ
checksum bytes = sum_of bytes % 4294967296

checksum-lt : (bytes : Bytes) → checksum bytes < 4294967296
unfolding checksum
checksum-lt bytes = omega arith

abbrev config : WalConfig
config = record { segment_size = 40; flush_every_n = 2 }

-- two payloads in a sealed segment, one in the current one
abbrev parts : List (List Bytes)
parts = ((7 ∷ 8 ∷ []) ∷ (9 ∷ []) ∷ []) ∷ []

abbrev current : List Bytes
current = (1 ∷ 2 ∷ 3 ∷ []) ∷ []

abbrev log : List Bytes
log = (7 ∷ 8 ∷ []) ∷ (9 ∷ []) ∷ (1 ∷ 2 ∷ 3 ∷ []) ∷ []

abbrev writer : WalWriter
writer = writer_at (files_of checksum 0 parts) (segment_of checksum 2 current) 3

-- the same, with the last record still in the buffer
abbrev buffered : WalWriter
buffered = record writer { synced = 0 }

writer-Holds : Holds checksum log 3 writer
writer-Holds = writer_at-Holds checksum parts current (omega arith)

buffered-Holds : Holds checksum log 2 buffered
unfolding records
buffered-Holds = record {
  parts = parts;
  ps = current;
  f = 0;
  files = record {
    sealed = refl;
    first = refl;
    content = refl;
    bytes = refl;
    next = refl;
    flushed = omega arith;
    synced = refl;
  };
  whole = refl;
  small = omega arith;
  on_disk = refl;
}

decode_record-encode_record_example :
    (buf : Bytes) × (encode_record checksum (zeros 18) 5 (7 ∷ 8 ∷ []) ≡ some buf)
    × ((rest : Bytes) → decode_record checksum (4 ∷ (buf ++ rest)) 1 ≡ decoded 5 (7 ∷ 8 ∷ []) 18)
    × ((k : ℕ) → k < 18 → decode_record checksum (4 ∷ take k buf) 1 ≡ incomplete)
decode_record-encode_record_example =
    decode_record-encode_record checksum checksum-lt 5 (7 ∷ 8 ∷ []) (4 ∷ []) (omega arith)
      (omega arith)

open_wal_total_example :
    open_wal checksum config (record { first_seq = 0; content = 1 ∷ 2 ∷ [] } ∷ []) ≢ panic
open_wal_total_example =
    open_wal_total checksum config (record { first_seq = 0; content = 1 ∷ 2 ∷ [] } ∷ [])

append-Holds_example :
    (w' : WalWriter) × (d : ℕ) × (append checksum config (5 ∷ 6 ∷ []) writer ≡ ok (3, w'))
    × (3 ≤ d)
    × Holds checksum (log ++ ((5 ∷ 6 ∷ []) ∷ [])) d w'
append-Holds_example =
    append-Holds checksum config (5 ∷ 6 ∷ []) log 3 writer (omega arith) (omega arith) writer-Holds

-- 10 bytes of the buffered record reached the disk
open_wal-crashed_example : Reopened checksum config log 2 (crashed 10 buffered)
open_wal-crashed_example =
    open_wal-crashed checksum config checksum-lt log 2 10 buffered buffered-Holds (omega arith)
      (omega arith)

-- the sum of the numbers of the payloads, until it reaches 3
abbrev add_number : ℕ → Bytes → ℕ → ℕ × Bool
add_number sequence payload total = (total + sequence, ltb (total + sequence) 3)

read_from-deliver_example :
    read_from checksum add_number 1 (writer.sealed ++ (writer.current ∷ [])) 0
    ≡ deliver add_number 1 0 log 0 0
read_from-deliver_example =
    read_from-deliver add_number 1 checksum checksum-lt log 3 writer 0 writer-Holds (omega arith)
