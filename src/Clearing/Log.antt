-- ===== src/Clearing/Log.antt =====
-- The events that post-trade processing consumes and replays, crates/exg-clearing/src/post_trade.rs.
use Prim.Native.String.{String}
use exg.Prelude.{ℕ, ◌+◌, ◌%◌, ltb, Option, some, List, [], ◌∷◌, ◌++◌, if◌then◌else◌}
use exg.Decimal.{Decimal128, neg}
use exg.Decimal.Panic.{◌>>=◌}
use exg.Common.Error.{UserId, UnixMicros}
use exg.Ids.Snowflake.{word}
use exg.Ledger.Funds
use exg.Ledger.Settlement.{settle_realized_pnl_capped, funding_key}
use exg.Engine.Messages.{
  Event, filled, mark_price_update, funding_rate_update, admin_credited, realized_pnl,
  funding_settled,
}
use exg.Clearing.PostTrade.{
  PostTrade, Consumed, expect, ignore, touch_account, apply_fill_to_position, consume_fill, pnl_key,
}
use exg.Clearing.Tick.{settle_funding_tick}

unfoldable pub handle_admin_credit :
    UserId → Decimal128 → String → UnixMicros → PostTrade → Consumed
handle_admin_credit user_id amount key ts s =
    expect (Funds.deposit user_id amount key ts (touch_account user_id s.ledger)) >>= λ done.
    some (admin_credited user_id amount key ts ∷ [], record s { ledger = done.1 })

abbrev pub later_period : ℕ → ℕ → ℕ
later_period period known = if ltb known period then period else known

module _ (digits : ℕ → String) where
  -- One event of the engine, in live processing.
  unfoldable pub consume_event : UnixMicros → Event → PostTrade → Consumed
  consume_event ts (filled f) s =
      apply_fill_to_position f.user_id f.symbol f.side f.fill_qty f.fill_price s.positions
      >>= consume_fill digits f.user_id f.symbol ts s
  consume_event ts (mark_price_update symbol mark index timestamp) s =
      some ([], record s { mark_price = mark })
  consume_event ts (funding_rate_update symbol rate timestamp) s =
      settle_funding_tick digits rate ts s
  consume_event ts _ s = some ([], s)

  unfoldable pub consume : UnixMicros → List Event → PostTrade → Consumed
  consume ts [] s = some ([], s)
  consume ts (ev ∷ evs) s = do
    now ← consume_event ts ev s
    later ← consume ts evs now.1
    some (now.0 ++ later.0, later.1)

  -- One recorded event, in a replay; its result on the ledger is dropped.
  unfoldable pub apply_event : Event → PostTrade → Option PostTrade
  unfolding pnl_key
  apply_event (filled f) s =
      apply_fill_to_position f.user_id f.symbol f.side f.fill_qty f.fill_price s.positions
      >>= λ fill. some (record s { positions = fill.1 })
  apply_event (mark_price_update symbol mark index timestamp) s =
      some (record s { mark_price = mark })
  apply_event (admin_credited user_id amount key timestamp) s =
      ignore (Funds.deposit user_id amount key timestamp (touch_account user_id s.ledger)) >>= λ l.
      some (record s { ledger = l })
  apply_event (realized_pnl user_id symbol amount timestamp) s =
      let seq = (s.pnl_seq + 1) % word in
      ignore (
        settle_realized_pnl_capped user_id amount (pnl_key digits seq user_id symbol) timestamp
          (touch_account user_id s.ledger))
      >>= λ l. some (record s { ledger = l; pnl_seq = seq })
  apply_event (funding_settled user_id symbol period amount timestamp) s =
      ignore (
        settle_realized_pnl_capped user_id (neg amount) (funding_key digits period user_id symbol)
          timestamp (touch_account user_id s.ledger))
      >>= λ l.
          some
            (record s { ledger = l; funding_period_id = later_period period s.funding_period_id })
  apply_event _ s = some s

  unfoldable pub replay_log : List Event → PostTrade → Option PostTrade
  replay_log [] s = some s
  replay_log (ev ∷ evs) s = apply_event ev s >>= replay_log evs
