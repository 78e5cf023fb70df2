-- ===== src/Wal/Appending.antt =====
-- `append` of crates/exg-wal/src/writer.rs keeps what the files of a writer hold.
use mathlib.Core.Path.{subst}
use mathlib.Core.List.{append_assoc, append-nil}
use exg.Prelude.{
  ℕ, ◌+◌, ◌<◌, ◌≤◌, ◌≡◌, refl, sym, ap, ◌∙◌, ltb, leb, Bool-cases, inl, inr, false, ◌&&◌, List, [],
  ◌∷◌, ◌++◌, arith,
}
use exg.Prelude.Lists.{length, length-append, AllOf-append, take_all, take-append_le}
use exg.Wal.Record.{Bytes}
use exg.Wal.Coding.{record_of, length-record_of, encode_record_lem}
use exg.Wal.Writer.{
  Segment, WalConfig, WalWriter, ok, flush, rotate_segment, make_room, write, auto_flush, append,
}
use exg.Wal.Scanning.{IsPayload, records}
use exg.Wal.Durable.{flat, flat-append, files_of, files_of-append, records-append, Written, Holds}

Segment_eta :
    (s : Segment) {n : ℕ} {c : Bytes}
    → s.first_seq ≡ n
    → s.content ≡ c
    → s ≡ record { first_seq = n; content = c }
Segment_eta s e e' = λ i. record { first_seq = e i; content = e' i }

module _ (crc32 : Bytes → ℕ) where
  flush-Written :
      {parts : List (List Bytes)} {ps : List Bytes} {f : ℕ} {w : WalWriter}
      → Written crc32 parts ps f w
      → Written crc32 parts ps (length ps) (flush w)
  flush-Written {parts} {ps} h = record {
    sealed = h.sealed;
    first = h.first;
    content = h.content;
    bytes = h.bytes;
    next = h.next;
    flushed = omega arith;
    synced = ap length (h.content ∙ ap (records crc32 (length (flat parts))) (sym (take_all ps)));
  }

  rotate_segment-Written :
      {parts : List (List Bytes)} {ps : List Bytes} {f : ℕ} {w : WalWriter}
      → Written crc32 parts ps f w
      → Written crc32 (parts ++ (ps ∷ [])) [] 0 (rotate_segment w)
  unfolding records
  rotate_segment-Written {parts} {ps} {f} {w} h =
      let size : length (flat (parts ++ (ps ∷ []))) ≡ length (flat parts) + length ps =
        ap length (flat-append parts ps) ∙ length-append (flat parts) ps in
      record {
        sealed =
            ap (λ (t : List Segment). t ++ (w.current ∷ [])) h.sealed
            ∙ ap (λ s. files_of crc32 0 parts ++ (s ∷ [])) (Segment_eta w.current h.first h.content)
            ∙ ap
                (λ k.
                  files_of crc32 0 parts
                  ++ (record { first_seq = k; content = records crc32 k ps } ∷ []))
                (omega arith)
            ∙ sym (files_of-append crc32 0 parts ps);
        first = h.next ∙ sym size;
        content = refl;
        bytes = refl;
        next = h.next ∙ sym size ∙ omega arith;
        flushed = omega arith;
        synced = refl;
      }

  write-Written :
      {parts : List (List Bytes)} {ps : List Bytes} {f : ℕ} {w : WalWriter} (p : Bytes)
      → length (flat parts) + length ps + 1 < 18446744073709551616
      → Written crc32 parts ps f w
      → Written crc32 parts
          (ps ++ (p ∷ []))
          f
          (write (16 + length p) (record_of crc32 (length (flat parts) + length ps) p) w)
  write-Written {parts} {ps} {f} {w} p room h =
      let n = length (flat parts) in
      let now = record_of crc32 (n + length ps) p in
      record {
        sealed = h.sealed;
        first = h.first;
        content = ap (λ (t : Bytes). t ++ now) h.content ∙ sym (records-append crc32 n ps p);
        bytes = omega (
          arith,
          h.bytes,
          length-append w.current.content now,
          length-record_of crc32 (n + length ps) p,
        );
        next = omega (arith, h.next, length-append ps (p ∷ []));
        flushed = omega (arith, h.flushed, length-append ps (p ∷ []));
        synced =
            h.synced
            ∙ ap (λ t. length (records crc32 n t)) (sym (take-append_le f ps (p ∷ []) h.flushed));
      }

  -- More of the log may be on disk than before.
  abbrev Kept : List Bytes → ℕ → WalWriter → Type 0
  Kept log durable w = (d : ℕ) × (durable ≤ d) × Holds crc32 log d w

  flush-Kept :
      {log : List Bytes} {durable : ℕ} {w : WalWriter}
      → Holds crc32 log durable w
      → Kept log durable (flush w)
  flush-Kept h = (
    length (flat h.parts) + length h.ps,
    omega (arith, h.on_disk, h.files.flushed),
    record {
      parts = h.parts;
      ps = h.ps;
      f = length h.ps;
      files = flush-Written h.files;
      whole = h.whole;
      small = h.small;
      on_disk = refl;
    },
  )

  rotate_segment-Kept :
      {log : List Bytes} {durable : ℕ} {w : WalWriter}
      → Holds crc32 log durable w
      → Kept log durable (rotate_segment (flush w))
  rotate_segment-Kept h = (
    length (flat h.parts) + length h.ps,
    omega (arith, h.on_disk, h.files.flushed),
    record {
      parts = h.parts ++ (h.ps ∷ []);
      ps = [];
      f = 0;
      files = rotate_segment-Written (flush-Written h.files);
      whole = append-nil (flat (h.parts ++ (h.ps ∷ []))) ∙ flat-append h.parts h.ps ∙ h.whole;
      small = h.small;
      on_disk =
          omega (arith, ap length (flat-append h.parts h.ps), length-append (flat h.parts) h.ps);
    },
  )

  make_room-Kept :
      (config : WalConfig) (size : ℕ) {log : List Bytes} {durable : ℕ} {w : WalWriter}
      → Holds crc32 log durable w
      → Kept log durable (make_room config size w)
  unfolding make_room
  make_room-Kept config size {log} {durable} {w} h =
      elim (Bool-cases (
        ltb 0 w.current_segment_bytes
        && ltb config.segment_size (w.current_segment_bytes + size))) [
          | inl full ↦ rw full (rotate_segment-Kept h)
          | inr room ↦ rw room (durable, omega arith, h)
        ]

  auto_flush-Kept :
      (config : WalConfig) {log : List Bytes} {durable : ℕ} {w : WalWriter}
      → Holds crc32 log durable w
      → Kept log durable (auto_flush config w)
  unfolding auto_flush
  auto_flush-Kept config {log} {durable} {w} h =
      elim (Bool-cases (leb config.flush_every_n w.records_since_flush)) [
        | inl due ↦ rw due (flush-Kept h)
        | inr not_due ↦ rw not_due (durable, omega arith, h)
      ]

  next_sequence-Holds :
      {log : List Bytes} {durable : ℕ} {w : WalWriter}
      → Holds crc32 log durable w
      → w.next_sequence ≡ length log
  next_sequence-Holds h = h.files.next ∙ sym (length-append (flat h.parts) h.ps) ∙ ap length h.whole

  write-Holds :
      (p : Bytes) {log : List Bytes} {durable : ℕ} {w : WalWriter}
      → IsPayload p
      → length log + 1 < 18446744073709551616
      → Holds crc32 log durable w
      → Holds crc32
          (log ++ (p ∷ []))
          durable
          (write (16 + length p) (record_of crc32 w.next_sequence p) w)
  write-Holds p {log} {durable} {w} small room h =
      let size : length (flat h.parts) + length h.ps ≡ length log =
        sym (length-append (flat h.parts) h.ps) ∙ ap length h.whole in
      record {
        parts = h.parts;
        ps = h.ps ++ (p ∷ []);
        f = h.f;
        files =
            subst
              (λ n.
                Written crc32 h.parts (h.ps ++ (p ∷ [])) h.f
                  (write (16 + length p) (record_of crc32 n p) w))
              (sym h.files.next) (write-Written p (omega arith) h.files);
        whole =
            sym (append_assoc (flat h.parts) h.ps (p ∷ []))
            ∙ ap (λ (t : List Bytes). t ++ (p ∷ [])) h.whole;
        small = AllOf-append IsPayload log p h.small small;
        on_disk = h.on_disk;
      }

  -- A writer holds a log, and the payload is not too large and its number is below 2^64. Appending
  -- it answers with the number of payloads before it, and leaves a writer that holds the log with
  -- the payload at its end, with no fewer payloads on disk.
  pub append-Holds :
      (config : WalConfig) (p : Bytes) (log : List Bytes) (durable : ℕ) (w : WalWriter)
      → IsPayload p
      → length log + 1 < 18446744073709551616
      → Holds crc32 log durable w
      → (w' : WalWriter) × (d : ℕ) × (append crc32 config p w ≡ ok (length log, w'))
        × (durable ≤ d)
        × Holds crc32 (log ++ (p ∷ [])) d w'
  unfolding append
  append-Holds config p log durable w small room h =
      let roomy = make_room config (16 + length p) w in
      let (d, grown, held) = make_room-Kept config (16 + length p) h in
      let (d', grown', held') = auto_flush-Kept config (write-Holds p small room held) in
      let fits : ltb 268435456 (length p) ≡ false = ground arith in
      let encoded = encode_record_lem crc32 roomy.next_sequence p (omega arith) in
      let wrote = write (16 + length p) (record_of crc32 roomy.next_sequence p) roomy in
      (
        auto_flush config wrote,
        d',
        rw (fits, encoded) (ap (λ k. ok (k, auto_flush config wrote)) (next_sequence-Holds held)),
        omega arith,
        held',
      )
