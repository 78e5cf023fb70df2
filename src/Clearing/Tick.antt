-- ===== src/Clearing/Tick.antt =====
-- The funding tick of post-trade processing, `settle_funding` of crates/exg-clearing/src/post_trade.rs.
use Prim.Native.String.{String}
use exg.Prelude.{
  ℕ, ◌+◌, ◌%◌, ◌&&◌, not, Bool, true, false, Option, some, List, [], ◌∷◌, ◌++◌, if◌then◌else◌,
}
use exg.Decimal.{Decimal128, neg, is_zero}
use exg.Decimal.Panic.{◌>>=◌, mul}
use exg.Common.Error.{UserId, SymbolId, UnixMicros}
use exg.Common.Types.{PositionSide, long, short, both}
use exg.Risk.Types.{Position}
use exg.Ids.Snowflake.{word}
use exg.Ledger.State.{Ledger}
use exg.Ledger.Settlement.{settle_realized_pnl_capped, funding_key}
use exg.Ledger.Audit.{verify_all_invariants}
use exg.Engine.Messages.{Event, funding_settled}
use exg.Clearing.Book.{take_positions}
use exg.Clearing.PostTrade.{PostTrade, Consumed, expect, touch_account}

unfoldable pub signed_rate : PositionSide → Decimal128 → Decimal128
signed_rate long rate = rate
signed_rate both rate = rate
signed_rate short rate = neg rate

abbrev pub funding_fact :
    UserId → SymbolId → ℕ → UnixMicros → Decimal128 × Ledger → List Event × Ledger
funding_fact user_id symbol period ts (moved, l) =
    if is_zero moved
    then ([], l)
    else (funding_settled user_id symbol period (neg moved) ts ∷ [], l)

-- The positions with a size.
unfoldable pub funding_rows : List Position → List Position
funding_rows [] = []
funding_rows (p ∷ ps) = let rest = funding_rows ps in if is_zero p.size then rest else p ∷ rest

abbrev pub no_rows : List Position → Bool
no_rows [] = true
no_rows (p ∷ ps) = false

-- The audit of the ledger, whose error aborts.
unfoldable pub audited : List Event × Ledger → Option (List Event × Ledger)
audited (facts, l) = expect (verify_all_invariants l, l) >>= λ passed. some (facts, l)

module _ (digits : ℕ → String) where
  -- The payment of a position, debited or credited.
  unfoldable pub settle_row :
      Decimal128 → Decimal128 → ℕ → UnixMicros → Position → Ledger → Option (List Event × Ledger)
  unfolding signed_rate
  settle_row rate mark period ts p l = do
    notional ← mul p.size mark
    payment ← mul notional (signed_rate p.side rate)
    if is_zero payment
        then some ([], l)
        else expect (
            settle_realized_pnl_capped p.user_id (neg payment)
              (funding_key digits period p.user_id p.symbol) ts (touch_account p.user_id l))
          >>= λ done. some (funding_fact p.user_id p.symbol period ts done)

  unfoldable pub settle_rows :
      Decimal128
      → Decimal128
      → ℕ
      → UnixMicros
      → List Position
      → Ledger
      → Option (List Event × Ledger)
  unfolding settle_row
  settle_rows rate mark period ts [] l = some ([], l)
  settle_rows rate mark period ts (p ∷ ps) l = do
    now ← settle_row rate mark period ts p l
    later ← settle_rows rate mark period ts ps now.1
    some (now.0 ++ later.0, later.1)

  unfoldable pub settle_funding_tick : Decimal128 → UnixMicros → PostTrade → Consumed
  settle_funding_tick rate ts s =
      let rows = funding_rows (take_positions s.positions) in
      let period = (s.funding_period_id + 1) % word in
      if not (no_rows rows) && is_zero s.mark_price
      then some ([], s)
      else settle_rows rate s.mark_price period ts rows s.ledger >>= λ settled.
          audited settled >>= λ passed.
          some (passed.0, record s { ledger = passed.1; funding_period_id = period })
