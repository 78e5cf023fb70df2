-- ===== src/Engine/Funding.antt =====
-- What a funding command does, crates/exg-matching-engine/src/engine.rs.
use exg.Prelude.{◌+◌, ◌%◌, ◌≡◌, ◌≢◌, ◌⊎◌, none, some, Option, [], ◌∷◌}
use exg.Decimal.{Decimal128, zero_dec, add, sub}
use exg.Decimal.Panic.{div}
use exg.Common.Error.{SymbolId, UnixMicros}
use exg.Risk.Rates.{Clamped}
use exg.Ids.Snowflake.{word}
use exg.Engine.Messages.{funding_rate_update}
use exg.Engine.State.{MatchingEngine, Outcome}

-- The part of the index price that the mark price is above it; there is none without an index.
abbrev pub IsPremium : Decimal128 → Decimal128 → Option Decimal128 → Type 0
IsPremium mark index p =
    (index ≡ zero_dec) × (p ≡ some zero_dec) ⊎ (index ≢ zero_dec) × (p ≡ div (sub mark index) index)

-- The result of a funding command on an engine whose premium is as given.
abbrev pub Funded :
    {Gen : Type 0}
    → SymbolId
    → UnixMicros
    → MatchingEngine Gen
    → Option Decimal128
    → Outcome Gen
    → Type 0
Funded symbol timestamp e none done = done ≡ none
Funded symbol timestamp e (some p) done =
    (rate : Decimal128) × Clamped (add p e.interest_rate) rate
    × (done
        ≡ some (
          funding_rate_update symbol rate timestamp ∷ [],
          record e { sequence = (e.sequence + 1) % word; last_funding_rate = rate },
        ))

abbrev pub FundingDone :
    {Gen : Type 0} → SymbolId → UnixMicros → MatchingEngine Gen → Outcome Gen → Type 0
FundingDone symbol timestamp e done =
    (p : Option Decimal128) × IsPremium e.mark_price e.index_price p
    × Funded symbol timestamp e p done
