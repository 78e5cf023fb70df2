-- ===== src/Wal/Coding.antt =====
-- Encoded records and what decoding makes of them, crates/exg-wal/src/segment.rs.
use exg.Prelude.{
  ℕ, zero, suc, ◌+◌, ◌-◌, ◌/◌, ◌%◌, ◌^◌, ◌<◌, ◌≤◌, ◌≡◌, refl, sym, ap, ◌∙◌, ltb, leb, ==_refl,
  Bool-cases, inl, inr, true, false, some, [], ◌∷◌, ◌++◌, arith,
}
use mathlib.Core.List.{append_assoc}
use native.Mathlib.Nat.{pow-suc}
use exg.Prelude.Lists.{
  length, take, drop, take-append, length-append, drop-append, take-append_ge, length-take,
}
use exg.Wal.Record.{
  Bytes, to_le_bytes, from_le_bytes, zeros, put, decoded, incomplete, compute_crc, encode_record,
  check_crc, decode_body, decode_rest, decode_record,
}

from_le_bytes-to_le_bytes : (k n : ℕ) → n < 256 ^ k → from_le_bytes (to_le_bytes k n) ≡ n
from_le_bytes-to_le_bytes zero n h = omega arith
from_le_bytes-to_le_bytes (suc k) n h =
    omega (arith, from_le_bytes-to_le_bytes k (n / 256) (omega (arith, pow-suc 256 k)))

pub length-to_le_bytes : (k n : ℕ) → length (to_le_bytes k n) ≡ k
length-to_le_bytes zero n = refl
length-to_le_bytes (suc k) n = ap suc (length-to_le_bytes k (n / 256))

drop-append_ge :
    (xs old ys : Bytes) (n : ℕ) → n ≡ length old → drop (length xs + n) (xs ++ (old ++ ys)) ≡ ys
drop-append_ge xs old ys n e =
    ap (λ k. drop k (xs ++ (old ++ ys))) (omega (arith, length-append xs old))
    ∙ ap (drop (length (xs ++ old))) (sym (append_assoc xs old ys))
    ∙ drop-append (xs ++ old) ys

-- The bytes of a record.
abbrev pub header : ℕ → ℕ → Bytes
header sequence n = to_le_bytes 8 sequence ++ to_le_bytes 4 n

abbrev pub Fits : ℕ → Bytes → Type 0
Fits sequence payload = (sequence < 18446744073709551616) × (length payload < 4294967296)

decode_rest-header :
    (crc32 : Bytes → ℕ) (sequence n : ℕ) (t : Bytes)
    → sequence < 18446744073709551616
    → n < 4294967296
    → decode_rest crc32 (header sequence n ++ t)
      ≡ decode_body crc32 sequence n (header sequence n ++ t)
unfolding decode_rest
decode_rest-header crc32 sequence n t hs hn =
    let long : ltb (length (header sequence n ++ t)) 12 ≡ false = ground arith in
    rw long (
      ap (λ v. decode_body crc32 v (from_le_bytes (to_le_bytes 4 n)) (header sequence n ++ t))
        (from_le_bytes-to_le_bytes 8 sequence hs)
      ∙ ap (λ v. decode_body crc32 sequence v (header sequence n ++ t))
          (from_le_bytes-to_le_bytes 4 n hn))

decode_body-short :
    (crc32 : Bytes → ℕ) (sequence n : ℕ) (t : Bytes)
    → length t < n + 4
    → decode_body crc32 sequence n (header sequence n ++ t) ≡ incomplete
unfolding decode_body
decode_body-short crc32 sequence n t h =
    let short : ltb (length (header sequence n ++ t)) (16 + n) ≡ true = ground arith in
    rw short refl

unfoldable pub record_of : (Bytes → ℕ) → ℕ → Bytes → Bytes
record_of crc32 sequence payload =
    header sequence (length payload)
    ++ (payload ++ to_le_bytes 4 (compute_crc crc32 sequence payload))

module _ (crc32 : Bytes → ℕ) (word : (bytes : Bytes) → crc32 bytes < 4294967296) where
  compute_crc-lt :
      (sequence : ℕ) (payload : Bytes) → compute_crc crc32 sequence payload < 4294967296
  unfolding compute_crc
  compute_crc-lt sequence payload = word _

  decode_body-record :
      (sequence : ℕ) (payload rest : Bytes)
      → decode_body crc32 sequence (length payload) (
          header sequence (length payload)
          ++ (payload ++ (to_le_bytes 4 (compute_crc crc32 sequence payload) ++ rest)))
        ≡ decoded sequence payload (16 + length payload)
  unfolding decode_body check_crc
  decode_body-record sequence payload rest =
      let crc = compute_crc crc32 sequence payload in
      let tail = to_le_bytes 4 crc ++ rest in
      let long : ltb (length (header sequence (length payload) ++ (payload ++ tail)))
            (16 + length payload)
          ≡ false =
        ground (arith, length-append payload tail) in
      let same : from_le_bytes (to_le_bytes 4 crc) ≡ crc =
        from_le_bytes-to_le_bytes 4 crc (compute_crc-lt sequence payload) in
      rw long (
        ap
          (λ (b : Bytes).
            check_crc crc32 sequence (16 + length payload) b
              (from_le_bytes (take 4 (drop (length payload) (payload ++ tail)))))
          (take-append payload tail)
        ∙ ap
            (λ (b : Bytes).
              check_crc crc32 sequence (16 + length payload) payload (from_le_bytes (take 4 b)))
            (drop-append payload tail)
        ∙ ap (λ v. check_crc crc32 sequence (16 + length payload) payload v) same
        ∙ rw (==_refl crc) refl)

  decode_rest-record :
      (sequence : ℕ) (payload rest : Bytes)
      → Fits sequence payload
      → decode_rest crc32 (record_of crc32 sequence payload ++ rest)
        ≡ decoded sequence payload (16 + length payload)
  unfolding record_of
  decode_rest-record sequence payload rest h =
      let crc = to_le_bytes 4 (compute_crc crc32 sequence payload) in
      ap (λ t. decode_rest crc32 (header sequence (length payload) ++ t))
        (append_assoc payload crc rest)
      ∙ decode_rest-header crc32 sequence (length payload) (payload ++ (crc ++ rest)) h.0 h.1
      ∙ decode_body-record sequence payload rest

  -- A record is read back wherever it stands.
  pub decode_record-record :
      (before : Bytes) (sequence : ℕ) (payload rest : Bytes)
      → Fits sequence payload
      → decode_record crc32 (before ++ (record_of crc32 sequence payload ++ rest)) (length before)
        ≡ decoded sequence payload (16 + length payload)
  unfolding decode_record
  decode_record-record before sequence payload rest h =
      ap (decode_rest crc32) (drop-append before (record_of crc32 sequence payload ++ rest))
      ∙ decode_rest-record sequence payload rest h

pub length-record_of :
    (crc32 : Bytes → ℕ) (sequence : ℕ) (payload : Bytes)
    → length (record_of crc32 sequence payload) ≡ 16 + length payload
unfolding record_of
length-record_of crc32 sequence payload =
    omega (arith, length-append payload (to_le_bytes 4 (compute_crc crc32 sequence payload)))

decode_rest-torn :
    (crc32 : Bytes → ℕ) (k sequence : ℕ) (payload : Bytes)
    → Fits sequence payload
    → k < 16 + length payload
    → decode_rest crc32 (take k (record_of crc32 sequence payload)) ≡ incomplete
unfolding decode_rest record_of
decode_rest-torn crc32 k sequence payload fits h = elim (Bool-cases (ltb k 12)) [
  | inl short ↦
      let few : ltb (length (take k (record_of crc32 sequence payload))) 12 ≡ true = ground (
        arith,
        length-take k (record_of crc32 sequence payload),
        length-record_of crc32 sequence payload,
      ) in
      rw few refl
  | inr long ↦
      let t = payload ++ to_le_bytes 4 (compute_crc crc32 sequence payload) in
      let size : length t ≡ length payload + 4 =
        length-append payload (to_le_bytes 4 (compute_crc crc32 sequence payload)) in
      let all : 12 ≤ k = ground arith in
      ap (decode_rest crc32) (take-append_ge (header sequence (length payload)) t k all)
      ∙ decode_rest-header crc32 sequence (length payload) (take (k - 12) t) fits.0 fits.1
      ∙ decode_body-short crc32 sequence (length payload) (take (k - 12) t)
          (omega (arith, length-take (k - 12) t (omega arith)))
]

-- A record that was cut off is incomplete.
pub decode_record-torn :
    (crc32 : Bytes → ℕ) (before : Bytes) (k sequence : ℕ) (payload : Bytes)
    → Fits sequence payload
    → k < 16 + length payload
    → decode_record crc32 (before ++ take k (record_of crc32 sequence payload)) (length before)
      ≡ incomplete
unfolding decode_record
decode_record-torn crc32 before k sequence payload fits h =
    ap (decode_rest crc32) (drop-append before (take k (record_of crc32 sequence payload)))
    ∙ decode_rest-torn crc32 k sequence payload fits h

-- A slice is overwritten.
put-append :
    (a src old rest : Bytes)
    → length src ≡ length old
    → put (length a) src (a ++ (old ++ rest)) ≡ some (a ++ (src ++ rest))
unfolding put
put-append a src old rest e =
    let fits : leb (length a + length src) (length (a ++ (old ++ rest))) ≡ true =
      ground (arith, length-append a (old ++ rest), length-append old rest) in
    rw fits (
      ap (λ (t : Bytes). some (t ++ (src ++ drop (length a + length src) (a ++ (old ++ rest)))))
        (take-append a (old ++ rest))
      ∙ ap (λ (t : Bytes). some (a ++ (src ++ t))) (drop-append_ge a old rest (length src) e))

zeros-add : (n m : ℕ) → zeros (n + m) ≡ zeros n ++ zeros m
zeros-add zero m = ap zeros (omega arith)
zeros-add (suc n) m =
    ap zeros (let e : suc n + m ≡ suc (n + m) = omega arith in e)
    ∙ ap (λ (t : Bytes). 0 ∷ t) (zeros-add n m)

length-zeros : (n : ℕ) → length (zeros n) ≡ n
length-zeros zero = refl
length-zeros (suc n) = ap suc (length-zeros n)

-- Encoding into a buffer of the record's size.
pub encode_record_lem :
    (crc32 : Bytes → ℕ) (sequence : ℕ) (payload : Bytes)
    → length payload < 4294967296
    → encode_record crc32 (zeros (16 + length payload)) sequence payload
      ≡ some (record_of crc32 sequence payload)
unfolding encode_record record_of
encode_record_lem crc32 sequence payload h =
    let n = length payload in
    let s8 = to_le_bytes 8 sequence in
    let l4 = to_le_bytes 4 n in
    let c4 = to_le_bytes 4 (compute_crc crc32 sequence payload) in
    let short : n % 4294967296 ≡ n = omega arith in
    let buffer : zeros (16 + n) ≡ zeros 8 ++ (zeros 4 ++ (zeros n ++ zeros 4)) =
      ap zeros (let e : 16 + n ≡ 12 + (n + 4) = omega arith in e)
      ∙ zeros-add 12 (n + 4)
      ∙ ap (λ (t : Bytes). zeros 12 ++ t) (zeros-add n 4) in
    let first = put-append [] s8 (zeros 8) (zeros 4 ++ (zeros n ++ zeros 4)) refl in
    let second = put-append s8 l4 (zeros 4) (zeros n ++ zeros 4) refl in
    let third = put-append (s8 ++ l4) payload (zeros n) (zeros 4) (sym (length-zeros n)) in
    let fourth : put (12 + n) c4 ((s8 ++ l4) ++ (payload ++ zeros 4))
        ≡ some ((s8 ++ l4) ++ (payload ++ c4)) =
      ap (λ k. put k c4 ((s8 ++ l4) ++ (payload ++ zeros 4)))
        (omega (arith, length-append (s8 ++ l4) payload))
      ∙ put-append ((s8 ++ l4) ++ payload) c4 (zeros 4) [] refl in
    rw (short, buffer, first, second, third) fourth
