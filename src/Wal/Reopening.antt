-- ===== src/Wal/Reopening.antt =====
-- `open` of crates/exg-wal/src/writer.rs after a crash.
use mathlib.Core.Path.{subst}
use mathlib.Core.List.{append-nil}
use exg.Prelude.{
  ℕ, zero, suc, ◌+◌, ◌<◌, ◌≡◌, refl, sym, ap, ◌∙◌, leb, Bool-cases, inl, inr, none, some, List, [],
  ◌∷◌, ◌++◌, if◌then◌else◌, arith,
}
use exg.Prelude.Lists.{length, take, take-append, length-append, AllOf, take_all}
use exg.Wal.Record.{Bytes}
use exg.Wal.Coding.{record_of}
use exg.Wal.Writer.{
  Segment, WalConfig, WalWriter, ok, recovered, recover_state, truncate_last, writer_at,
  empty_segment, choose_segment, reopened, open_wal,
}
use exg.Wal.Scanning.{IsPayload, records, scan_complete, scan-cut}
use exg.Wal.Durable.{flat, flat-append, files_of, files_of-append, Holds}

-- What is on disk after a crash that keeps `c` bytes of the current segment.
abbrev pub crashed : ℕ → WalWriter → List Segment
crashed c w =
    w.sealed
    ++ (record { first_seq = w.current.first_seq; content = take c w.current.content } ∷ [])

pub AllOf-left : (xs ys : List Bytes) → AllOf IsPayload (xs ++ ys) → AllOf IsPayload xs
AllOf-left [] ys h = tt
AllOf-left (x ∷ xs) ys h = (h.0, AllOf-left xs ys h.1)

pub AllOf-right : (xs ys : List Bytes) → AllOf IsPayload (xs ++ ys) → AllOf IsPayload ys
AllOf-right [] ys h = h
AllOf-right (x ∷ xs) ys h = AllOf-right xs ys h.1

pub AllOf-take : (j : ℕ) (xs : List Bytes) → AllOf IsPayload xs → AllOf IsPayload (take j xs)
AllOf-take zero xs h = tt
AllOf-take (suc j) [] h = tt
AllOf-take (suc j) (x ∷ xs) h = (h.0, AllOf-take j xs h.1)

pub take-append_add :
    (xs ys : List Bytes) (j : ℕ) → take (length xs + j) (xs ++ ys) ≡ xs ++ take j ys
take-append_add [] ys j = ap (λ k. take k ys) (let e : 0 + j ≡ j = omega arith in e)
take-append_add (x ∷ xs) ys j =
    ap (λ k. take k (x ∷ (xs ++ ys)))
      (let e : suc (length xs) + j ≡ suc (length xs + j) = omega arith in e)
    ∙ ap (λ (t : List Bytes). x ∷ t) (take-append_add xs ys j)

-- The last segment is cut where the valid size says.
truncate_last-append :
    (xs : List Segment) (s : Segment) (size : ℕ)
    → truncate_last (some size) (xs ++ (s ∷ []))
      ≡ xs ++ (record s { content = take size s.content } ∷ [])
truncate_last-append [] s size = refl
truncate_last-append (x ∷ []) s size = refl
truncate_last-append (x ∷ y ∷ xs) s size =
    ap (λ (t : List Segment). x ∷ t) (truncate_last-append (y ∷ xs) s size)

-- The writer goes on in the last segment, or in a new one after it.
choose_segment-append :
    (config : WalConfig) (next : ℕ) (xs : List Segment) (s : Segment)
    → choose_segment config next (xs ++ (s ∷ [])) ≡ (
        if leb config.segment_size (length s.content)
        then writer_at (xs ++ (s ∷ [])) (empty_segment next) next
        else writer_at xs s next)
unfolding choose_segment
choose_segment-append config next [] s = refl
choose_segment-append config next (x ∷ []) s =
    elim (Bool-cases (leb config.segment_size (length s.content))) [
      | inl full ↦ rw full refl
      | inr room ↦ rw room refl
    ]
choose_segment-append config next (x ∷ y ∷ xs) s =
    ap {A = WalWriter} (λ w. record w { sealed = x ∷ w.sealed })
      (choose_segment-append config next (y ∷ xs) s)
    ∙ elim (Bool-cases (leb config.segment_size (length s.content))) [
      | inl full ↦ rw full refl
      | inr room ↦ rw room refl
    ]

module _ (crc32 : Bytes → ℕ) where
  abbrev pub segment_of : ℕ → List Bytes → Segment
  segment_of n ps = record { first_seq = n; content = records crc32 n ps }

  pub writer_at-Holds :
      (parts : List (List Bytes)) (qs : List Bytes)
      → AllOf IsPayload (flat parts ++ qs)
      → Holds crc32 (flat parts ++ qs) (length (flat parts) + length qs) (
          writer_at
            (files_of crc32 0 parts)
            (segment_of (length (flat parts)) qs)
            (length (flat parts) + length qs))
  writer_at-Holds parts qs small = record {
    parts = parts;
    ps = qs;
    f = length qs;
    files = record {
      sealed = refl;
      first = refl;
      content = refl;
      bytes = refl;
      next = refl;
      flushed = omega arith;
      synced = ap (λ t. length (records crc32 (length (flat parts)) t)) (sym (take_all qs));
    };
    whole = refl;
    small = small;
    on_disk = refl;
  }

  new_segment-Holds :
      (parts : List (List Bytes)) (qs : List Bytes)
      → AllOf IsPayload (flat parts ++ qs)
      → Holds crc32 (flat parts ++ qs) (length (flat parts) + length qs) (
          writer_at
            (files_of crc32 0 parts ++ (segment_of (length (flat parts)) qs ∷ []))
            (empty_segment (length (flat parts) + length qs))
            (length (flat parts) + length qs))
  unfolding records
  new_segment-Holds parts qs small =
      let size : length (flat (parts ++ (qs ∷ []))) ≡ length (flat parts) + length qs =
        ap length (flat-append parts qs) ∙ length-append (flat parts) qs in
      record {
        parts = parts ++ (qs ∷ []);
        ps = [];
        f = 0;
        files = record {
          sealed = sym (
              files_of-append crc32 0 parts qs
              ∙ ap (λ k. files_of crc32 0 parts ++ (segment_of k qs ∷ [])) (omega arith));
          first = sym size;
          content = refl;
          bytes = refl;
          next = sym size ∙ omega arith;
          flushed = omega arith;
          synced = refl;
        };
        whole = append-nil (flat (parts ++ (qs ∷ []))) ∙ flat-append parts qs;
        small = small;
        on_disk = omega (arith, size);
      }

  pub choose_segment-Holds :
      (config : WalConfig) (parts : List (List Bytes)) (qs : List Bytes)
      → AllOf IsPayload (flat parts ++ qs)
      → Holds crc32 (flat parts ++ qs) (length (flat parts) + length qs) (
          choose_segment config
            (length (flat parts) + length qs)
            (files_of crc32 0 parts ++ (segment_of (length (flat parts)) qs ∷ [])))
  choose_segment-Holds config parts qs small =
      let s = segment_of (length (flat parts)) qs in
      subst (Holds crc32 (flat parts ++ qs) (length (flat parts) + length qs))
        (sym (
          choose_segment-append config (length (flat parts) + length qs) (files_of crc32 0 parts)
            s))
        (elim (Bool-cases (leb config.segment_size (length s.content))) [
          | inl full ↦ rw full (new_segment-Holds parts qs small)
          | inr room ↦ rw room (writer_at-Holds parts qs small)
        ])

  module _ (word : (bytes : Bytes) → crc32 bytes < 4294967296) where
    recover_state-sealed :
        (n : ℕ) (parts : List (List Bytes)) (rest : List Segment)
        → AllOf IsPayload (flat parts)
        → n + length (flat parts) < 18446744073709551616
        → recover_state crc32 (files_of crc32 n parts ++ rest) n
          ≡ recover_state crc32 rest (n + length (flat parts))
    unfolding recover_state
    recover_state-sealed n [] rest small room = ap (recover_state crc32 rest) (omega arith)
    recover_state-sealed n (ps ∷ parts) rest small room =
        let size = length-append ps (flat parts) in
        let scanned =
          scan_complete crc32 word n ps (AllOf-left ps (flat parts) small) (omega arith) in
        rw scanned (
          recover_state-sealed (n + length ps) parts rest (AllOf-right ps (flat parts) small)
            (omega arith)
          ∙ ap (recover_state crc32 rest) (omega arith))

    -- The segments of `parts`, and a last one whose bytes are the records of `qs`, and then maybe a
    -- part of one more.
    pub open_wal-between :
        (config : WalConfig) (parts : List (List Bytes)) (qs : List Bytes) (s : Segment)
        → AllOf IsPayload (flat parts ++ qs)
        → length (flat parts) + length qs < 18446744073709551616
        → s ≡ segment_of (length (flat parts)) qs
        → open_wal crc32 config (files_of crc32 0 parts ++ (s ∷ []))
          ≡ ok (
              choose_segment config
                (length (flat parts) + length qs)
                (files_of crc32 0 parts ++ (segment_of (length (flat parts)) qs ∷ [])))
    unfolding open_wal recover_state
    open_wal-between config parts qs s small room e =
        let n = length (flat parts) in
        let segments = files_of crc32 0 parts ++ (segment_of n qs ∷ []) in
        let scanned = scan_complete crc32 word n qs (AllOf-right (flat parts) qs small) room in
        let last : recover_state crc32 (segment_of n qs ∷ []) n ≡ recovered (n + length qs) none =
          rw scanned refl in
        ap (λ t. open_wal crc32 config (files_of crc32 0 parts ++ (t ∷ []))) e
        ∙ ap (reopened config segments) (
            recover_state-sealed 0 parts (segment_of n qs ∷ []) (AllOf-left (flat parts) qs small)
              (omega arith)
            ∙ ap (recover_state crc32 (segment_of n qs ∷ [])) (omega arith)
            ∙ last)

    pub open_wal-inside :
        (config : WalConfig) (parts : List (List Bytes)) (qs : List Bytes) (k : ℕ) (q : Bytes)
        (s : Segment)
        → AllOf IsPayload (flat parts ++ qs)
        → length (flat parts) + length qs < 18446744073709551616
        → IsPayload q
        → 0 < k
        → k < 16 + length q
        → s ≡ record {
          first_seq = length (flat parts);
          content =
              records crc32 (length (flat parts)) qs
              ++ take k (record_of crc32 (length (flat parts) + length qs) q);
        }
        → open_wal crc32 config (files_of crc32 0 parts ++ (s ∷ []))
          ≡ ok (
              choose_segment config
                (length (flat parts) + length qs)
                (files_of crc32 0 parts ++ (segment_of (length (flat parts)) qs ∷ [])))
    unfolding open_wal recover_state
    open_wal-inside config parts qs k q s small room fits pos less e =
        let n = length (flat parts) in
        let piece = take k (record_of crc32 (n + length qs) q) in
        let t : Segment = record { first_seq = n; content = records crc32 n qs ++ piece } in
        let segments = files_of crc32 0 parts ++ (t ∷ []) in
        let size = length (records crc32 n qs) in
        let scanned =
          scan-cut crc32 word n k qs q (AllOf-right (flat parts) qs small) fits room pos less in
        let last : recover_state crc32 (t ∷ []) n ≡ recovered (n + length qs) (some size) =
          rw scanned refl in
        ap (λ u. open_wal crc32 config (files_of crc32 0 parts ++ (u ∷ []))) e
        ∙ ap (reopened config segments) (
            recover_state-sealed 0 parts (t ∷ []) (AllOf-left (flat parts) qs small) (omega arith)
            ∙ ap (recover_state crc32 (t ∷ [])) (omega arith)
            ∙ last)
        ∙ ap (λ u. ok (choose_segment config (n + length qs) u))
            (truncate_last-append (files_of crc32 0 parts) t size
              ∙ ap
                  (λ (b : Bytes).
                    files_of crc32 0 parts ++ (record { first_seq = n; content = b } ∷ []))
                  (take-append (records crc32 n qs) piece))
