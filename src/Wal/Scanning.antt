-- ===== src/Wal/Scanning.antt =====
-- The scan of a segment at the start, `recover_state` of crates/exg-wal/src/writer.rs.
use mathlib.Core.List.{append_assoc, append-nil}
use exg.Prelude.{
  ℕ, zero, suc, ◌+◌, ◌-◌, ◌%◌, ◌<◌, ◌≤◌, ◌≡◌, ◌≢◌, refl, sym, ap, ◌∙◌, leb, ◌==◌, ==_refl,
  Bool-cases, inl, inr, true, false, List, [], ◌∷◌, ◌++◌, arith,
}
use exg.Prelude.Lists.{length, take, length-append, AllOf, length-take}
use exg.Wal.Record.{
  Bytes, Decoded, decoded, incomplete, crc_mismatch, decode_record, decode_rest, decode_body,
  check_crc,
}
use exg.Wal.Coding.{record_of, length-record_of, decode_record-record, decode_record-torn}
use exg.Wal.Writer.{Scan, finished, torn, out_of_fuel, scan_record, scan_segment}

abbrev pub IsPayload : Bytes → Type 0
IsPayload payload = length payload ≤ 268435456

module _ (crc32 : Bytes → ℕ) where
  -- The records of some payloads, numbered from `n` on.
  unfoldable pub records : ℕ → List Bytes → Bytes
  records n [] = []
  records n (p ∷ ps) = record_of crc32 n p ++ records (n + 1) ps

  scan-cong :
      (f : ℕ) {bytes bytes' : Bytes} {offset offset' next next' : ℕ}
      → bytes ≡ bytes'
      → offset ≡ offset'
      → next ≡ next'
      → scan_segment crc32 f bytes offset next ≡ scan_segment crc32 f bytes' offset' next'
  scan-cong f {bytes} {bytes'} {offset} {offset'} {next} {next'} e e' e'' =
      ap (λ b. scan_segment crc32 f b offset next) e
      ∙ ap (λ o. scan_segment crc32 f bytes' o next) e'
      ∙ ap (λ n. scan_segment crc32 f bytes' offset' n) e''

  module _ (word : (bytes : Bytes) → crc32 bytes < 4294967296) where
    scan-record_of :
        (f n : ℕ) (before p rest : Bytes)
        → IsPayload p
        → n + 1 < 18446744073709551616
        → scan_segment crc32 (suc f) (before ++ (record_of crc32 n p ++ rest)) (length before) n
          ≡ scan_segment crc32 f
              (before ++ (record_of crc32 n p ++ rest))
              (length before + (16 + length p))
              (n + 1)
    unfolding scan_segment scan_record
    scan-record_of f n before p rest small h =
        let bytes = before ++ (record_of crc32 n p ++ rest) in
        let more : leb (length bytes) (length before) ≡ false = ground (
          arith,
          length-append before (record_of crc32 n p ++ rest),
          length-append (record_of crc32 n p) rest,
          length-record_of crc32 n p,
        ) in
        let read = decode_record-record crc32 word before n p rest (omega arith, omega arith) in
        rw (more, read, ==_refl n)
          (ap (scan_segment crc32 f bytes (length before + (16 + length p))) (omega arith))

    pub scan-records :
        (f n : ℕ) (ps : List Bytes) (before rest : Bytes)
        → AllOf IsPayload ps
        → n + length ps < 18446744073709551616
        → scan_segment crc32 (length ps + f) (before ++ (records n ps ++ rest)) (length before) n
          ≡ scan_segment crc32 f
              ((before ++ records n ps) ++ rest)
              (length (before ++ records n ps))
              (n + length ps)
    unfolding records
    scan-records f n [] before rest small h =
        ap (λ k. scan_segment crc32 k (before ++ rest) (length before) n)
          (let e : 0 + f ≡ f = omega arith in e)
        ∙ scan-cong f (ap (λ (t : Bytes). t ++ rest) (sym (append-nil before)))
            (ap length (sym (append-nil before))) (omega arith)
    scan-records f n (p ∷ ps) before rest small h =
        let now = record_of crc32 n p in
        let later = records (n + 1) ps in
        ap (λ k. scan_segment crc32 k (before ++ ((now ++ later) ++ rest)) (length before) n)
          (let e : suc (length ps) + f ≡ suc (length ps + f) = omega arith in e)
        ∙ scan-cong (suc (length ps + f))
            (ap (λ (t : Bytes). before ++ t) (append_assoc now later rest)) refl refl
        ∙ scan-record_of (length ps + f) n before p (later ++ rest) small.0 (omega arith)
        ∙ scan-cong (length ps + f) (sym (append_assoc before now (later ++ rest)))
            (omega (arith, length-append before now, length-record_of crc32 n p)) refl
        ∙ scan-records f (n + 1) ps (before ++ now) rest small.1 (omega arith)
        ∙ scan-cong f (ap (λ (t : Bytes). t ++ rest) (append_assoc before now later))
            (ap length (append_assoc before now later)) (omega arith)

  -- The end of a segment.
  scan-end :
      (f next : ℕ) (bytes : Bytes)
      → scan_segment crc32 (suc f) bytes (length bytes) next ≡ finished next
  unfolding scan_segment
  scan-end f next bytes =
      let done : leb (length bytes) (length bytes) ≡ true = ground arith in rw done refl

  pub length-records : (n : ℕ) (ps : List Bytes) → length ps ≤ length (records n ps)
  unfolding records
  length-records n [] = omega arith
  length-records n (p ∷ ps) = omega (
    arith,
    length-records (n + 1) ps,
    length-append (record_of crc32 n p) (records (n + 1) ps),
    length-record_of crc32 n p,
  )

  module _ (word : (bytes : Bytes) → crc32 bytes < 4294967296) where
    pub scan_complete :
        (n : ℕ) (ps : List Bytes)
        → AllOf IsPayload ps
        → n + length ps < 18446744073709551616
        → scan_segment crc32 (suc (length (records n ps))) (records n ps) 0 n
          ≡ finished (n + length ps)
    scan_complete n ps small h =
        let f = length (records n ps) - length ps in
        ap (λ k. scan_segment crc32 k (records n ps) 0 n)
          (let e : suc (length (records n ps)) ≡ length ps + suc f =
              omega (arith, length-records n ps) in
            e)
        ∙ scan-cong (length ps + suc f) (sym (append-nil (records n ps))) refl refl
        ∙ scan-records word (suc f) n ps [] [] small h
        ∙ scan-cong (suc f) (append-nil (records n ps)) refl refl
        ∙ scan-end f (n + length ps) (records n ps)

    -- Cut inside the record of `p`.
    pub scan-cut :
        (n k : ℕ) (ps : List Bytes) (p : Bytes)
        → AllOf IsPayload ps
        → IsPayload p
        → n + length ps < 18446744073709551616
        → 0 < k
        → k < 16 + length p
        → scan_segment crc32
            (suc (length (records n ps ++ take k (record_of crc32 (n + length ps) p))))
            (records n ps ++ take k (record_of crc32 (n + length ps) p))
            0
            n
          ≡ torn (n + length ps) (length (records n ps))
    unfolding scan_segment scan_record
    scan-cut n k ps p small fits h pos less =
        let rest = take k (record_of crc32 (n + length ps) p) in
        let bytes = records n ps ++ rest in
        let f = length bytes - length ps in
        let size : length bytes ≡ length (records n ps) + k = omega (
          arith,
          length-append (records n ps) rest,
          length-take k (record_of crc32 (n + length ps) p),
          length-record_of crc32 (n + length ps) p,
        ) in
        let more : leb (length bytes) (length (records n ps)) ≡ false = ground arith in
        let cut =
          decode_record-torn crc32 (records n ps) k (n + length ps) p (omega arith, omega arith)
            less in
        ap (λ j. scan_segment crc32 j bytes 0 n)
          (let e : suc (length bytes) ≡ length ps + suc f = omega (arith, length-records n ps) in e)
        ∙ scan-records word (suc f) n ps [] rest small h
        ∙ rw (more, cut) refl

-- Every record takes bytes.
decode_record-consumed :
    (crc32 : Bytes → ℕ) (bytes : Bytes) (offset : ℕ) {s c : ℕ} {p : Bytes}
    → decode_record crc32 bytes offset ≡ decoded s p c
    → 0 < c
unfolding decode_record decode_rest decode_body check_crc
decode_record-consumed crc32 bytes offset h = ground arith

scan_record-ends :
    (r : Decoded) (offset next : ℕ) (go : ℕ → ℕ → Scan)
    → ((s c : ℕ) (p : Bytes)
        → r ≡ decoded s p c
        → go (offset + c) ((s + 1) % 18446744073709551616) ≢ out_of_fuel)
    → scan_record r offset next go ≢ out_of_fuel
unfolding scan_record
scan_record-ends (decoded s p c) offset next go h = elim (Bool-cases (s == next)) [
  | inl same ↦ rw same (h s c p refl)
  | inr other ↦ rw other (λ e. cc)
]
scan_record-ends incomplete offset next go h = λ e. cc
scan_record-ends (crc_mismatch s) offset next go h = λ e. cc

pub scan_segment-ends :
    (crc32 : Bytes → ℕ) (fuel : ℕ) (bytes : Bytes) (offset next : ℕ)
    → 0 < fuel
    → length bytes < offset + fuel
    → scan_segment crc32 fuel bytes offset next ≢ out_of_fuel
unfolding scan_segment
scan_segment-ends crc32 zero bytes offset next pos h = absurd (omega arith)
scan_segment-ends crc32 (suc fuel) bytes offset next pos h =
    elim (Bool-cases (leb (length bytes) offset)) [
      | inl done ↦ rw done (λ e. cc)
      | inr more ↦ rw more (
          scan_record-ends (decode_record crc32 bytes offset) offset next
            (scan_segment crc32 fuel bytes)
            λ s c p e.
              let some_bytes = decode_record-consumed crc32 bytes offset e in
              scan_segment-ends crc32 fuel bytes (offset + c) ((s + 1) % 18446744073709551616)
                (ground arith) (omega arith))
    ]
