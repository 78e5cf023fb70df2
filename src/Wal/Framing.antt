-- ===== src/Wal/Framing.antt =====
-- Encoding and decoding a record, crates/exg-wal/src/segment.rs.
use exg.Prelude.{ℕ, ◌+◌, ◌<◌, ◌≡◌, some, ◌++◌}
use exg.Prelude.Lists.{length, take}
use exg.Wal.Record.{Bytes, zeros, decoded, incomplete, encode_record, decode_record}
use exg.Wal.Coding.{record_of, encode_record_lem, decode_record-record, decode_record-torn}

-- A sequence number below 2^64, a payload of fewer than 2^32 bytes, and checksums of 32 bits.
-- Encoding into a buffer of the size of the record goes through. Wherever the record stands, and
-- whatever follows, it is decoded to the number, the payload and its size; and where it was cut off
-- before its end, it is incomplete.
pub decode_record-encode_record :
    (crc32 : Bytes → ℕ) (word : (bytes : Bytes) → crc32 bytes < 4294967296) (sequence : ℕ)
    (payload before : Bytes)
    → sequence < 18446744073709551616
    → length payload < 4294967296
    → (buf : Bytes) × (encode_record crc32 (zeros (16 + length payload)) sequence payload
        ≡ some buf)
      × ((rest : Bytes)
          → decode_record crc32 (before ++ (buf ++ rest)) (length before)
            ≡ decoded sequence payload (16 + length payload))
      × ((k : ℕ)
          → k < 16 + length payload
          → decode_record crc32 (before ++ take k buf) (length before) ≡ incomplete)
decode_record-encode_record crc32 word sequence payload before h small = (
  record_of crc32 sequence payload,
  encode_record_lem crc32 sequence payload small,
  λ rest. decode_record-record crc32 word before sequence payload rest (h, small),
  λ k less. decode_record-torn crc32 before k sequence payload (h, small) less,
)
