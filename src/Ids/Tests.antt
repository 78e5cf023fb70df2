-- ===== src/Ids/Tests.antt =====
-- The theorems on crates/exg-common/src/ids.rs at a few ids.
use exg.Prelude.{ℕ, zero, suc, ◌≡◌, refl, List, [], ◌∷◌, arith, some, inr}
use exg.Ids.Snowflake.{SnowflakeGen, Issued, next_id, advance, pack, make_id}
use exg.Ids.Order.{InRange}
use exg.Ids.Threads.{start, run_threads, Increasing, run_threads-Increasing}
use exg.Ids.Clock.{HandedOut, next_id_total}

-- two threads; the second one loads before the first one exchanges, and tries again
abbrev race : List (ℕ × ℕ)
race =
    (1, 1704067200005)
    ∷ (1, 1704067200005)
    ∷ (2, 1704067200005)
    ∷ (2, 1704067200005)
    ∷ (1, 1704067200005)
    ∷ (2, 1704067200005)
    ∷ (2, 1704067200005)
    ∷ (2, 1704067200005)
    ∷ (2, 1704067200005)
    ∷ []

race_ids : (run_threads 3 race start).issued ≡ 20983809 ∷ 20983808 ∷ []
unfolding run_threads advance pack make_id
race_ids = refl

run_threads-Increasing_example : Increasing (run_threads 3 race start).issued
run_threads-Increasing_example = run_threads-Increasing 3 race (omega arith)

-- a clock that stands in the millisecond of the last id, whose sequence is used up, and then goes on
abbrev late_clock : ℕ → ℕ
late_clock zero = 1704067200005
late_clock (suc n) = 1704067200006

abbrev full_gen : SnowflakeGen
full_gen = record { node_id = 3; state = 6979859251224575 }

late_clock-InRange : (i : ℕ) → InRange (late_clock i)
late_clock-InRange zero = omega arith
late_clock-InRange (suc n) = omega arith

next_id_total_example :
    (r : Issued) × (next_id 2 late_clock 0 full_gen ≡ some r) × HandedOut full_gen r
next_id_total_example =
    next_id_total 1 late_clock 0 full_gen late_clock-InRange (omega arith) (inr (omega arith))
