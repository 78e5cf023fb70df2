-- ===== src/Wal/Cuts.antt =====
-- A segment whose end was not written, for `recover_state` of crates/exg-wal/src/writer.rs.
use exg.Prelude.{
  ℕ, zero, suc, ◌+◌, ◌-◌, ◌<◌, ◌≤◌, ◌≡◌, refl, sym, ap, ◌∙◌, leb, Bool-cases, inl, inr, List, [],
  ◌∷◌, ◌++◌, arith,
}
use mathlib.Core.List.{append_assoc}
use exg.Prelude.Lists.{length, take, length-append, AllOf, take-append_le, take-append_ge}
use exg.Wal.Record.{Bytes}
use exg.Wal.Coding.{record_of, length-record_of}
use exg.Wal.Scanning.{IsPayload, records}

-- The first `c` bytes of the records of `ps` hold the records of the first `j` payloads, and then
-- nothing or a part of one more record; the `f` first records are among them.
pub data Cut (crc32 : Bytes → ℕ) (n : ℕ) (ps : List Bytes) (c f : ℕ) : Type 0 where
  between :
      (j : ℕ)
      → j ≤ length ps
      → f ≤ j
      → take c (records crc32 n ps) ≡ records crc32 n (take j ps)
      → Cut crc32 n ps c f
  inside :
      (j k : ℕ) (q : Bytes)
      → j ≤ length ps
      → f ≤ j
      → IsPayload q
      → 0 < k
      → k < 16 + length q
      → take c (records crc32 n ps)
        ≡ records crc32 n (take j ps) ++ take k (record_of crc32 (n + j) q)
      → Cut crc32 n ps c f

module _ (crc32 : Bytes → ℕ) where
  -- A record before the cut.
  Cut-after :
      (n : ℕ) (p : Bytes) (ps : List Bytes) (c f : ℕ)
      → length (record_of crc32 n p) ≤ c
      → Cut crc32 (n + 1) ps (c - length (record_of crc32 n p)) f
      → Cut crc32 n (p ∷ ps) c (suc f)
  unfolding records
  Cut-after n p ps c f h (between j a b e) = between (suc j) (omega arith) (omega arith) (
      take-append_ge (record_of crc32 n p) (records crc32 (n + 1) ps) c h
      ∙ ap (λ (t : Bytes). record_of crc32 n p ++ t) e)
  Cut-after n p ps c f h (inside j k q a b small pos less e) =
      inside (suc j) k q (omega arith) (omega arith) small pos less (
        take-append_ge (record_of crc32 n p) (records crc32 (n + 1) ps) c h
        ∙ ap (λ (t : Bytes). record_of crc32 n p ++ t) e
        ∙ sym (append_assoc (record_of crc32 n p) (records crc32 (n + 1) (take j ps)) _)
        ∙ ap
            (λ m.
              (record_of crc32 n p ++ records crc32 (n + 1) (take j ps))
              ++ take k (record_of crc32 m q))
            (omega arith))

  weaken :
      {n : ℕ} {ps : List Bytes} {c f : ℕ} (g : ℕ) → g ≤ f → Cut crc32 n ps c f → Cut crc32 n ps c g
  weaken g h (between j a b e) = between j a (omega arith) e
  weaken g h (inside j k q a b small pos less e) = inside j k q a (omega arith) small pos less e

  Cut-here :
      (n : ℕ) (p : Bytes) (ps : List Bytes) (c : ℕ)
      → IsPayload p
      → c < length (record_of crc32 n p)
      → Cut crc32 n (p ∷ ps) c 0
  unfolding records
  Cut-here n p ps zero small h = between 0 (omega arith) (omega arith) refl
  Cut-here n p ps (suc c) small h =
      inside 0 (suc c) p (omega arith) (omega arith) small (omega arith)
        (omega (arith, length-record_of crc32 n p))
        (take-append_le (suc c) (record_of crc32 n p) (records crc32 (n + 1) ps) (omega arith)
          ∙ ap (λ m. take (suc c) (record_of crc32 m p)) (omega arith))

  pub records-Cut :
      (n : ℕ) (ps : List Bytes) (c f : ℕ)
      → AllOf IsPayload ps
      → f ≤ length ps
      → length (records crc32 n (take f ps)) ≤ c
      → Cut crc32 n ps c f
  unfolding records
  records-Cut n [] zero f small h k = between 0 (omega arith) (omega arith) refl
  records-Cut n [] (suc c) f small h k = between 0 (omega arith) (omega arith) refl
  records-Cut n (p ∷ ps) c zero small h k =
      elim (Bool-cases (leb (length (record_of crc32 n p)) c)) [
        | inl past ↦ weaken 0 (omega arith) (
            Cut-after n p ps c 0 (ground arith) (
              records-Cut (n + 1) ps (c - length (record_of crc32 n p)) 0 small.1 (omega arith)
                (omega arith)))
        | inr within ↦ Cut-here n p ps c small.0 (ground arith)
      ]
  records-Cut n (p ∷ ps) c (suc f) small h k =
      let size = length-append (record_of crc32 n p) (records crc32 (n + 1) (take f ps)) in
      Cut-after n p ps c f (omega arith) (
        records-Cut (n + 1) ps (c - length (record_of crc32 n p)) f small.1 (omega arith)
          (omega arith))
