-- ===== src/Wal/Opening.antt =====
-- `open` and `recover_state` of crates/exg-wal/src/writer.rs on any files.
use exg.Prelude.{ℕ, suc, ◌≢◌, refl, Bool, true, false, List, [], ◌∷◌, arith}
use exg.Prelude.Lists.{length}
use exg.Wal.Record.{Bytes}
use exg.Wal.Writer.{
  Segment, WalConfig, panic, Scan, finished, torn, gap, mismatch, out_of_fuel, Recovery, recovered,
  refused, exhausted, after_scan, is_last, recover_state, reopened, open_wal,
}
use exg.Wal.Scanning.{scan_segment-ends}

after_scan-ends :
    (last : Bool) (s : Scan) (go : ℕ → Recovery)
    → s ≢ out_of_fuel
    → ((n : ℕ) → go n ≢ exhausted)
    → after_scan last s go ≢ exhausted
after_scan-ends last (finished n) go h k = k n
after_scan-ends true (torn n offset) go h k = λ e. cc
after_scan-ends false (torn n offset) go h k = λ e. cc
after_scan-ends last (gap expected found) go h k = λ e. cc
after_scan-ends last (mismatch s) go h k = λ e. cc
after_scan-ends last out_of_fuel go h k = absurd (h refl)

recover_state-ends :
    (crc32 : Bytes → ℕ) (segments : List Segment) (next : ℕ)
    → recover_state crc32 segments next ≢ exhausted
unfolding recover_state
recover_state-ends crc32 [] next = λ e. cc
recover_state-ends crc32 (s ∷ rest) next =
    after_scan-ends (is_last rest) _ (recover_state crc32 rest)
      (scan_segment-ends crc32 (suc (length s.content)) s.content 0 next (omega arith)
        (omega arith))
      (recover_state-ends crc32 rest)

reopened-ends :
    (config : WalConfig) (segments : List Segment) (r : Recovery)
    → r ≢ exhausted
    → reopened config segments r ≢ panic
reopened-ends config segments (recovered next truncate_info) h = λ e. cc
reopened-ends config segments (refused e) h = λ e'. cc
reopened-ends config segments exhausted h = absurd (h refl)

-- Whatever bytes the segments hold, and whatever the checksum is, opening the log ends, with a
-- writer or an error: the fuel of the scan of a segment, its bytes and one more, is not spent.
pub open_wal_total :
    (crc32 : Bytes → ℕ) (config : WalConfig) (segments : List Segment)
    → open_wal crc32 config segments ≢ panic
unfolding open_wal
open_wal_total crc32 config segments =
    reopened-ends config segments _ (recover_state-ends crc32 segments 0)
