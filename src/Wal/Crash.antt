-- ===== src/Wal/Crash.antt =====
-- A crash, and `open` after it, crates/exg-wal/src/writer.rs.
use mathlib.Core.Path.{subst}
use exg.Prelude.{ℕ, ◌+◌, ◌<◌, ◌≤◌, ◌≡◌, sym, ap, ◌∙◌, List, [], ◌∷◌, ◌++◌, arith}
use exg.Prelude.Lists.{length, take, length-append, AllOf, AllOf-both, length-take}
use exg.Wal.Record.{Bytes}
use exg.Wal.Coding.{record_of}
use exg.Wal.Writer.{Segment, WalConfig, WalWriter, ok, choose_segment, open_wal}
use exg.Wal.Scanning.{IsPayload, records}
use exg.Wal.Durable.{flat, files_of, Holds}
use exg.Wal.Cuts.{Cut, between, inside, records-Cut}
use exg.Wal.Reopening.{
  crashed, segment_of, AllOf-left, AllOf-right, AllOf-take, take-append_add, choose_segment-Holds,
  open_wal-between, open_wal-inside,
}

module _ (crc32 : Bytes → ℕ) (config : WalConfig) where
  -- The writer after a crash holds the first payloads of the log, those on disk among them.
  abbrev pub Reopened : List Bytes → ℕ → List Segment → Type 0
  Reopened log durable segments =
      (k : ℕ) × (w' : WalWriter) × (durable ≤ k)
      × (k ≤ length log)
      × (open_wal crc32 config segments ≡ ok w')
      × Holds crc32 (take k log) k w'

  Reopened-at :
      (parts : List (List Bytes)) (ps : List Bytes) (durable j : ℕ) (segments : List Segment)
      → AllOf IsPayload (flat parts ++ ps)
      → j ≤ length ps
      → durable ≤ length (flat parts) + j
      → open_wal crc32 config segments
        ≡ ok (
            choose_segment config
              (length (flat parts) + length (take j ps))
              (files_of crc32 0 parts ++ (segment_of crc32 (length (flat parts)) (take j ps) ∷ [])))
      → Reopened (flat parts ++ ps) durable segments
  Reopened-at parts ps durable j segments small h kept e =
      let qs = take j ps in
      let size = length-take j ps h in
      let first : take (length (flat parts) + length qs) (flat parts ++ ps) ≡ flat parts ++ qs =
        ap (λ i. take (length (flat parts) + i) (flat parts ++ ps)) size
        ∙ take-append_add (flat parts) ps j in
      let held = choose_segment-Holds crc32 config parts qs (
        AllOf-both IsPayload (flat parts) qs (AllOf-left (flat parts) ps small)
          (AllOf-take j ps (AllOf-right (flat parts) ps small))) in
      (
        length (flat parts) + length qs,
        _,
        omega (arith, size),
        omega (arith, size, length-append (flat parts) ps),
        e,
        subst
            (λ t. Holds crc32 t (length (flat parts) + length qs) (
              choose_segment config (length (flat parts) + length qs)
                (files_of crc32 0 parts ++ (segment_of crc32 (length (flat parts)) qs ∷ []))))
            (sym first) held,
      )

  module _ (word : (bytes : Bytes) → crc32 bytes < 4294967296) where
    Reopened-Cut :
        (parts : List (List Bytes)) (ps : List Bytes) (durable c f : ℕ)
        → AllOf IsPayload (flat parts ++ ps)
        → length (flat parts) + length ps < 18446744073709551616
        → length (flat parts) + f ≡ durable
        → Cut crc32 (length (flat parts)) ps c f
        → Reopened (flat parts ++ ps) durable (
            files_of crc32 0 parts
            ++ (record {
              first_seq = length (flat parts);
              content = take c (records crc32 (length (flat parts)) ps);
            }
                ∷ []))
    Reopened-Cut parts ps durable c f small room e (between j h kept same) =
        Reopened-at parts ps durable j _ small h (omega arith) (
          open_wal-between crc32 word config parts (take j ps) _
            (AllOf-both IsPayload (flat parts) (take j ps) (AllOf-left (flat parts) ps small)
              (AllOf-take j ps (AllOf-right (flat parts) ps small)))
            (omega (arith, length-take j ps h))
            (ap {B = Segment}
              (λ (b : Bytes). record { first_seq = length (flat parts); content = b }) same))
    Reopened-Cut parts ps durable c f small room e (inside j k q h kept fits pos less same) =
        Reopened-at parts ps durable j _ small h (omega arith) (
          open_wal-inside crc32 word config parts (take j ps) k q _
            (AllOf-both IsPayload (flat parts) (take j ps) (AllOf-left (flat parts) ps small)
              (AllOf-take j ps (AllOf-right (flat parts) ps small)))
            (omega (arith, length-take j ps h)) fits pos less
            (ap {B = Segment}
              (λ (b : Bytes). record { first_seq = length (flat parts); content = b })
              (same
                ∙ ap
                    (λ i.
                      records crc32 (length (flat parts)) (take j ps)
                      ++ take k (record_of crc32 (length (flat parts) + i) q))
                    (sym (length-take j ps h)))))

    -- A writer holds a log of fewer than 2^64 payloads, and a crash keeps no less of the current
    -- segment than is on disk; the checksums have 32 bits. Opening the log then goes through, with
    -- a writer that holds the first payloads of the log and no other, all of those on disk among
    -- them.
    pub open_wal-crashed :
        (log : List Bytes) (durable c : ℕ) (w : WalWriter)
        → Holds crc32 log durable w
        → length log < 18446744073709551616
        → w.synced ≤ c
        → Reopened log durable (crashed c w)
    open_wal-crashed log durable c w h room kept =
        let on_disk : crashed c w
            ≡ files_of crc32 0 h.parts
              ++ (record {
                first_seq = length (flat h.parts);
                content = take c (records crc32 (length (flat h.parts)) h.ps);
              }
                  ∷ []) =
          λ i.
            h.files.sealed i
            ++ (record { first_seq = h.files.first i; content = take c (h.files.content i) }
                ∷ []) in
        let small = subst (AllOf IsPayload) (sym h.whole) h.small in
        let size : length (flat h.parts) + length h.ps ≡ length log =
          sym (length-append (flat h.parts) h.ps) ∙ ap length h.whole in
        let cut =
          records-Cut crc32 (length (flat h.parts)) h.ps c h.f
            (AllOf-right (flat h.parts) h.ps small) h.files.flushed
            (omega (arith, h.files.synced)) in
        subst (λ t. Reopened t durable (crashed c w)) h.whole
          (subst (Reopened (flat h.parts ++ h.ps) durable) (sym on_disk)
            (Reopened-Cut h.parts h.ps durable c h.f small (omega arith) h.on_disk cut))
