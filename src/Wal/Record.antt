-- ===== src/Wal/Record.antt =====
-- The records of a segment, crates/exg-wal/src/segment.rs. A byte is a number; `crc32`, of another
-- package, is a parameter. A slice out of range aborts: `none`.
use exg.Prelude.{
  ℕ, zero, suc, ◌+◌, ◌*◌, ◌/◌, ◌%◌, ltb, leb, ◌==◌, Option, none, some, List, [], ◌∷◌, ◌++◌,
  if◌then◌else◌,
}
use exg.Prelude.Lists.{length, take, drop}
use exg.Decimal.Panic.{◌>>=◌}

abbrev pub Bytes : Type 0
Bytes = List ℕ

abbrev pub header_size : ℕ
header_size = 12

abbrev pub record_overhead : ℕ
record_overhead = 16

abbrev pub max_payload_size : ℕ
max_payload_size = 268435456

-- `to_le_bytes` and `from_le_bytes`, of a number of so many bytes
abbrev pub to_le_bytes : ℕ → ℕ → Bytes
to_le_bytes zero n = []
to_le_bytes (suc k) n = (n % 256) ∷ to_le_bytes k (n / 256)

abbrev pub from_le_bytes : Bytes → ℕ
from_le_bytes [] = 0
from_le_bytes (b ∷ bs) = b + 256 * from_le_bytes bs

-- `vec![0u8; n]`
abbrev pub zeros : ℕ → Bytes
zeros zero = []
zeros (suc n) = 0 ∷ zeros n

-- `buf[i..i + src.len()].copy_from_slice(src)`
unfoldable pub put : ℕ → Bytes → Bytes → Option Bytes
put i src buf =
    if leb (i + length src) (length buf)
    then some (take i buf ++ (src ++ drop (i + length src) buf))
    else none

pub data Decoded : Type 0 where
  decoded : ℕ → Bytes → ℕ → Decoded
  incomplete : Decoded
  crc_mismatch : ℕ → Decoded

module _ (crc32 : Bytes → ℕ) where
  -- The three updates of the hasher, as one.
  unfoldable pub compute_crc : ℕ → Bytes → ℕ
  compute_crc sequence payload =
      crc32 (to_le_bytes 8 sequence ++ (to_le_bytes 4 (length payload % 4294967296) ++ payload))

  unfoldable pub encode_record : Bytes → ℕ → Bytes → Option Bytes
  encode_record buf sequence payload = do
    buf1 ← put 0 (to_le_bytes 8 sequence) buf
    buf2 ← put 8 (to_le_bytes 4 (length payload % 4294967296)) buf1
    buf3 ← put 12 payload buf2
    put (12 + length payload) (to_le_bytes 4 (compute_crc sequence payload)) buf3

  -- The payload and the checksum, after the two tests of the length.
  unfoldable pub check_crc : ℕ → ℕ → Bytes → ℕ → Decoded
  check_crc sequence total payload stored_crc =
      if stored_crc == compute_crc sequence payload
      then decoded sequence payload total
      else crc_mismatch sequence

  unfoldable pub decode_body : ℕ → ℕ → Bytes → Decoded
  unfolding check_crc
  decode_body sequence payload_len rest =
      if ltb (length rest) (record_overhead + payload_len)
      then incomplete
      else check_crc sequence (record_overhead + payload_len) (take payload_len (drop 12 rest))
          (from_le_bytes (take 4 (drop payload_len (drop 12 rest))))

  -- What stands from `offset` on.
  unfoldable pub decode_rest : Bytes → Decoded
  unfolding decode_body
  decode_rest rest =
      if ltb (length rest) header_size
      then incomplete
      else decode_body (from_le_bytes (take 8 rest)) (from_le_bytes (take 4 (drop 8 rest))) rest

  unfoldable pub decode_record : Bytes → ℕ → Decoded
  unfolding decode_rest
  decode_record bytes offset = decode_rest (drop offset bytes)
