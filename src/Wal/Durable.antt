-- ===== src/Wal/Durable.antt =====
-- What the files of a writer hold, crates/exg-wal/src/writer.rs.
use mathlib.Core.List.{append_assoc, append-nil}
use exg.Prelude.{ℕ, suc, ◌+◌, ◌≤◌, ◌≡◌, sym, ap, ◌∙◌, List, [], ◌∷◌, ◌++◌, arith}
use exg.Prelude.Lists.{length, take, length-append, AllOf}
use exg.Wal.Record.{Bytes}
use exg.Wal.Coding.{record_of}
use exg.Wal.Writer.{Segment, WalWriter}
use exg.Wal.Scanning.{IsPayload, records}

-- The payloads of some segments, one list for each.
abbrev pub flat : List (List Bytes) → List Bytes
flat [] = []
flat (ps ∷ parts) = ps ++ flat parts

module _ (crc32 : Bytes → ℕ) where
  -- Their files, numbered from `n` on.
  abbrev pub files_of : ℕ → List (List Bytes) → List Segment
  files_of n [] = []
  files_of n (ps ∷ parts) =
      record { first_seq = n; content = records crc32 n ps } ∷ files_of (n + length ps) parts

  -- The sealed segments hold `parts`, the current one holds `ps`, of which `f` records are on disk.
  pub record Written (parts : List (List Bytes)) (ps : List Bytes) (f : ℕ) (w : WalWriter)
      : Type 0 where
    pub sealed : w.sealed ≡ files_of 0 parts
    pub first : w.current.first_seq ≡ length (flat parts)
    pub content : w.current.content ≡ records crc32 (length (flat parts)) ps
    pub bytes : w.current_segment_bytes ≡ length w.current.content
    pub next : w.next_sequence ≡ length (flat parts) + length ps
    pub flushed : f ≤ length ps
    pub synced : w.synced ≡ length (records crc32 (length (flat parts)) (take f ps))

  -- The writer holds the payloads of `log`, and so many of them are on disk.
  pub record Holds (log : List Bytes) (durable : ℕ) (w : WalWriter) : Type 0 where
    pub parts : List (List Bytes)
    pub ps : List Bytes
    pub f : ℕ
    pub files : Written parts ps f w
    pub whole : flat parts ++ ps ≡ log
    pub small : AllOf IsPayload log
    pub on_disk : length (flat parts) + f ≡ durable

  pub files_of-append :
      (n : ℕ) (parts : List (List Bytes)) (ps : List Bytes)
      → files_of n (parts ++ (ps ∷ []))
        ≡ files_of n parts
          ++ (record {
            first_seq = n + length (flat parts);
            content = records crc32 (n + length (flat parts)) ps;
          }
              ∷ [])
  files_of-append n [] ps =
      ap (λ k. record { first_seq = k; content = records crc32 k ps } ∷ []) (omega arith)
  files_of-append n (qs ∷ parts) ps =
      ap (λ (t : List Segment). record { first_seq = n; content = records crc32 n qs } ∷ t)
        (files_of-append (n + length qs) parts ps
          ∙ ap
              (λ k.
                files_of (n + length qs) parts
                ++ (record { first_seq = k; content = records crc32 k ps } ∷ []))
              (omega (arith, length-append qs (flat parts))))

  pub records-append :
      (n : ℕ) (ps : List Bytes) (p : Bytes)
      → records crc32 n (ps ++ (p ∷ [])) ≡ records crc32 n ps ++ record_of crc32 (n + length ps) p
  unfolding records
  records-append n [] p =
      append-nil (record_of crc32 n p) ∙ ap (λ k. record_of crc32 k p) (omega arith)
  records-append n (q ∷ ps) p =
      ap (λ (t : Bytes). record_of crc32 n q ++ t)
        (records-append (n + 1) ps p
          ∙ ap (λ k. records crc32 (n + 1) ps ++ record_of crc32 k p) (omega arith))
      ∙ sym (
          append_assoc (record_of crc32 n q) (records crc32 (n + 1) ps)
            (record_of crc32 (n + suc (length ps)) p))

pub flat-append :
    (parts : List (List Bytes)) (ps : List Bytes) → flat (parts ++ (ps ∷ [])) ≡ flat parts ++ ps
flat-append [] ps = append-nil ps
flat-append (qs ∷ parts) ps =
    ap (λ (t : List Bytes). qs ++ t) (flat-append parts ps) ∙ sym (append_assoc qs (flat parts) ps)
