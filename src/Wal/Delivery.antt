-- ===== src/Wal/Delivery.antt =====
-- What `read_from` of crates/exg-wal/src/reader.rs hands to its callback.
use mathlib.Core.Path.{subst}
use mathlib.Core.List.{append_assoc}
use exg.Prelude.{
  ℕ, suc, ◌+◌, ◌-◌, ◌<◌, ◌≤◌, ◌≡◌, refl, sym, ap, ◌∙◌, ltb, leb, Bool, Bool-cases, inl, inr, true,
  false, List, [], ◌∷◌, ◌++◌, if◌then◌else◌, arith,
}
use exg.Prelude.Lists.{length, length-append, AllOf}
use exg.Wal.Record.{Bytes}
use exg.Wal.Coding.{record_of, length-record_of, decode_record-record}
use exg.Wal.Writer.{WalWriter}
use exg.Wal.Scanning.{IsPayload, records, length-records}
use exg.Wal.Durable.{flat, flat-append, files_of, files_of-append, Holds}
use exg.Wal.Reopening.{AllOf-left, AllOf-right}
use exg.Wal.Reader.{
  Reading, going, stopped, corrupt, out_of_fuel, if_going, answered, read_record, read_segment,
  read_segments, from_start, read_from,
}

module _ {S : Type 0} (callback : ℕ → Bytes → S → S × Bool) (start : ℕ) where
  -- The payloads of a log, numbered from `n` on, from the start on, until the callback stops.
  unfoldable pub deliver : ℕ → List Bytes → S → ℕ → Reading S
  deliver n [] st count = going st count
  deliver n (p ∷ ps) st count =
      if ltb n start
      then deliver (n + 1) ps st count
      else answered (callback n p st) count (deliver (n + 1) ps)

  deliver-below :
      (n : ℕ) (ps : List Bytes) (st : S) (count : ℕ)
      → n + length ps ≤ start
      → deliver n ps st count ≡ going st count
  unfolding deliver
  deliver-below n [] st count h = refl
  deliver-below n (p ∷ ps) st count h =
      let early : ltb n start ≡ true = ground arith in
      rw early (deliver-below (n + 1) ps st count (omega arith))

  answered-cong :
      (a : S × Bool) (count : ℕ) {f g : S → ℕ → Reading S}
      → ((st : S) (c : ℕ) → f st c ≡ g st c)
      → answered a count f ≡ answered a count g
  answered-cong (st, true) count h = h st (count + 1)
  answered-cong (st, false) count h = refl

  if_going-answered :
      (a : S × Bool) (count : ℕ) (f g : S → ℕ → Reading S)
      → if_going (answered a count f) g ≡ answered a count (λ st c. if_going (f st c) g)
  if_going-answered (st, true) count f g = refl
  if_going-answered (st, false) count f g = refl

  deliver-append :
      (n : ℕ) (ps qs : List Bytes) (st : S) (count : ℕ)
      → deliver n (ps ++ qs) st count
        ≡ if_going (deliver n ps st count) (deliver (n + length ps) qs)
  unfolding deliver
  deliver-append n [] qs st count = ap (λ k. deliver k qs st count) (omega arith)
  deliver-append n (p ∷ ps) qs st count =
      let step = λ (st' : S) (c : ℕ).
        deliver-append (n + 1) ps qs st' c
        ∙ ap (λ k. if_going (deliver (n + 1) ps st' c) (deliver k qs)) (omega arith) in
      elim (Bool-cases (ltb n start)) [
        | inl early ↦ rw early (step st count)
        | inr due ↦ rw due (
            answered-cong (callback n p st) count step
            ∙ sym (if_going-answered (callback n p st) count _ _))
      ]

  module _ (crc32 : Bytes → ℕ) (word : (bytes : Bytes) → crc32 bytes < 4294967296) where
    read-cong :
        (f : ℕ) {bytes bytes' : Bytes} {offset offset' : ℕ} (st : S) (count : ℕ)
        → bytes ≡ bytes'
        → offset ≡ offset'
        → read_segment callback start crc32 f bytes offset st count
          ≡ read_segment callback start crc32 f bytes' offset' st count
    read-cong f {bytes} {bytes'} {offset} {offset'} st count e e' =
        ap (λ b. read_segment callback start crc32 f b offset st count) e
        ∙ ap (λ o. read_segment callback start crc32 f bytes' o st count) e'

    read-record_of :
        (f n : ℕ) (before p rest : Bytes) (st : S) (count : ℕ) {go : S → ℕ → Reading S}
        → IsPayload p
        → n < 18446744073709551616
        → ((st' : S) (c : ℕ)
            → read_segment callback start crc32 f
                (before ++ (record_of crc32 n p ++ rest))
                (length before + (16 + length p))
                st'
                c
              ≡ go st' c)
        → read_segment callback start crc32
            (suc f)
            (before ++ (record_of crc32 n p ++ rest))
            (length before)
            st
            count
          ≡ (if ltb n start then go st count else answered (callback n p st) count go)
    unfolding read_segment read_record
    read-record_of f n before p rest st count small h later =
        let bytes = before ++ (record_of crc32 n p ++ rest) in
        let more : leb (length bytes) (length before) ≡ false = ground (
          arith,
          length-append before (record_of crc32 n p ++ rest),
          length-append (record_of crc32 n p) rest,
          length-record_of crc32 n p,
        ) in
        let read = decode_record-record crc32 word before n p rest (omega arith, omega arith) in
        rw (more, read)
          (elim (Bool-cases (ltb n start)) [
            | inl early ↦ rw early (later st count)
            | inr due ↦ rw due (answered-cong (callback n p st) count later)
          ])

    read_segment-deliver :
        (f n : ℕ) (ps : List Bytes) (before : Bytes) (st : S) (count : ℕ)
        → AllOf IsPayload ps
        → n + length ps < 18446744073709551616
        → read_segment callback start crc32
            (length ps + suc f)
            (before ++ records crc32 n ps)
            (length before)
            st
            count
          ≡ deliver n ps st count
    unfolding read_segment deliver records
    read_segment-deliver f n [] before st count small h =
        let e : 0 + suc f ≡ suc f = omega arith in
        let over : leb (length (before ++ [])) (length before) ≡ true =
          ground (arith, length-append before []) in
        rw (e, over) refl
    read_segment-deliver f n (p ∷ ps) before st count small h =
        let now = record_of crc32 n p in
        let later = records crc32 (n + 1) ps in
        let bytes = before ++ (now ++ later) in
        let step : (st' : S) (c : ℕ)
            → read_segment callback start crc32 (length ps + suc f) bytes
                (length before + (16 + length p)) st' c
              ≡ deliver (n + 1) ps st' c =
          λ st' c.
            read-cong (length ps + suc f) st' c (sym (append_assoc before now later))
              (omega (arith, length-append before now, length-record_of crc32 n p))
            ∙ read_segment-deliver f (n + 1) ps (before ++ now) st' c small.1 (omega arith) in
        let e : suc (length ps) + suc f ≡ suc (length ps + suc f) = omega arith in
        let small_number : n < 18446744073709551616 = omega arith in
        ap (λ k. read_segment callback start crc32 k bytes (length before) st count) e
        ∙ read-record_of (length ps + suc f) n before p later st count small.0 small_number step

    read_segment-records :
        (n : ℕ) (ps : List Bytes) (st : S) (count : ℕ)
        → AllOf IsPayload ps
        → n + length ps < 18446744073709551616
        → read_segment callback start crc32
            (suc (length (records crc32 n ps)))
            (records crc32 n ps)
            0
            st
            count
          ≡ deliver n ps st count
    read_segment-records n ps st count small h =
        let f = length (records crc32 n ps) - length ps in
        let e : suc (length (records crc32 n ps)) ≡ length ps + suc f =
          omega (arith, length-records crc32 n ps) in
        ap (λ k. read_segment callback start crc32 k (records crc32 n ps) 0 st count) e
        ∙ read_segment-deliver f n ps [] st count small h

    if_going-cong :
        (r : Reading S) {f g : S → ℕ → Reading S}
        → ((st : S) (c : ℕ) → f st c ≡ g st c)
        → if_going r f ≡ if_going r g
    if_going-cong (going st c) h = h st c
    if_going-cong (stopped st c) h = refl
    if_going-cong (corrupt s) h = refl
    if_going-cong out_of_fuel h = refl

    read_segments-deliver :
        (n : ℕ) (parts : List (List Bytes)) (st : S) (count : ℕ)
        → AllOf IsPayload (flat parts)
        → n + length (flat parts) < 18446744073709551616
        → read_segments callback start crc32 (files_of crc32 n parts) st count
          ≡ deliver n (flat parts) st count
    unfolding read_segments deliver
    read_segments-deliver n [] st count small h = refl
    read_segments-deliver n (ps ∷ parts) st count small h =
        let size = length-append ps (flat parts) in
        ap
          (λ r.
            if_going r (read_segments callback start crc32 (files_of crc32 (n + length ps) parts)))
          (read_segment-records n ps st count (AllOf-left ps (flat parts) small) (omega arith))
        ∙ if_going-cong (deliver n ps st count) (λ st' c.
          read_segments-deliver (n + length ps) parts st' c (AllOf-right ps (flat parts) small)
            (omega arith))
        ∙ sym (deliver-append n ps (flat parts) st count)

    -- The segments before the start deliver nothing.
    read_segments-from_start :
        (n : ℕ) (parts : List (List Bytes)) (st : S) (count : ℕ)
        → AllOf IsPayload (flat parts)
        → n + length (flat parts) < 18446744073709551616
        → read_segments callback start crc32 (from_start start (files_of crc32 n parts)) st count
          ≡ deliver n (flat parts) st count
    unfolding from_start deliver
    read_segments-from_start n [] st count small h = read_segments-deliver n [] st count small h
    read_segments-from_start n (ps ∷ []) st count small h =
        read_segments-deliver n (ps ∷ []) st count small h
    read_segments-from_start n (ps ∷ qs ∷ parts) st count small h =
        let size = length-append ps (flat (qs ∷ parts)) in
        elim (Bool-cases (leb (n + length ps) start)) [
          | inl early ↦ rw early (
              read_segments-from_start (n + length ps) (qs ∷ parts) st count
                (AllOf-right ps (flat (qs ∷ parts)) small) (omega arith)
              ∙ sym (
                  deliver-append n ps (flat (qs ∷ parts)) st count
                  ∙ ap (λ r. if_going r (deliver (n + length ps) (flat (qs ∷ parts))))
                      (deliver-below n ps st count (ground arith))))
          | inr due ↦ rw due (read_segments-deliver n (ps ∷ qs ∷ parts) st count small h)
        ]

-- The files of a flushed writer that holds a log of fewer than 2^64 payloads, with checksums of 32
-- bits: reading from a sequence number on calls back with the payloads of the log that have this
-- number or a later one, each with its number and in their order, until the callback stops, and
-- answers with the state of the callback and the number of the calls.
pub read_from-deliver :
    {S : Type 0} (callback : ℕ → Bytes → S → S × Bool) (start : ℕ) (crc32 : Bytes → ℕ)
    (word : (bytes : Bytes) → crc32 bytes < 4294967296) (log : List Bytes) (durable : ℕ)
    (w : WalWriter) (st : S)
    → Holds crc32 log durable w
    → length log < 18446744073709551616
    → read_from crc32 callback start (w.sealed ++ (w.current ∷ [])) st
      ≡ deliver callback start 0 log st 0
unfolding read_from
read_from-deliver callback start crc32 word log durable w st h room =
    let parts = h.parts ++ (h.ps ∷ []) in
    let whole : flat parts ≡ log = flat-append h.parts h.ps ∙ h.whole in
    let first : w.current.first_seq ≡ 0 + length (flat h.parts) = h.files.first ∙ omega arith in
    let content : w.current.content ≡ records crc32 (0 + length (flat h.parts)) h.ps =
      h.files.content ∙ ap (λ k. records crc32 k h.ps) (omega arith) in
    let last : w.current ≡ record {
      first_seq = 0 + length (flat h.parts);
      content = records crc32 (0 + length (flat h.parts)) h.ps;
    } =
      λ i. record { first_seq = first i; content = content i } in
    let files : w.sealed ++ (w.current ∷ []) ≡ files_of crc32 0 parts =
      (λ i. h.files.sealed i ++ (last i ∷ [])) ∙ sym (files_of-append crc32 0 h.parts h.ps) in
    ap (λ t. read_segments callback start crc32 (from_start start t) st 0) files
    ∙ read_segments-from_start callback start crc32 word 0 parts st 0
        (subst (AllOf IsPayload) (sym whole) h.small) (omega (arith, ap length whole))
    ∙ ap (λ t. deliver callback start 0 t st 0) whole
