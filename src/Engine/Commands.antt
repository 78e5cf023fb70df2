-- ===== src/Engine/Commands.antt =====
-- `process_command` and `compute_funding` of crates/exg-matching-engine/src/engine.rs.
use exg.Prelude.{◌+◌, ◌%◌, Option, some, [], ◌∷◌, if◌then◌else◌}
use exg.Decimal.{Decimal128, zero_dec, sub, is_zero}
use exg.Decimal.Panic.{◌>>=◌, div}
use exg.Common.Error.{SymbolId, UnixMicros}
use exg.Risk.Funding.{calc_funding_rate}
use exg.Ids.Snowflake.{word}
use exg.Engine.Messages.{
  TradeId, funding_rate_update, Command, new_order, cancel_order, amend_order, cancel_all_orders,
  update_mark, funding, admin_credit,
}
use exg.Engine.State.{MatchingEngine, Outcome}
use exg.Engine.Accept.{handle_new_order}
use exg.Engine.Cancel.{handle_cancel_order, handle_cancel_all}
use exg.Engine.Amend.{handle_amend_order}
use exg.Engine.Stops.{update_mark_price}

unfoldable pub premium : Decimal128 → Decimal128 → Option Decimal128
premium mark index = if is_zero index then some zero_dec else div (sub mark index) index

module _ {Gen : Type 0} where
  unfoldable pub compute_funding : SymbolId → UnixMicros → MatchingEngine Gen → Outcome Gen
  unfolding premium
  compute_funding symbol timestamp e = premium e.mark_price e.index_price >>= λ index_premium.
      let rate = calc_funding_rate index_premium e.interest_rate in
      some (funding_rate_update symbol rate timestamp ∷ [], record e { last_funding_rate = rate })

module _ {Gen : Type 0} (next_id : Gen → TradeId × Gen) where
  unfoldable pub dispatch : Command → MatchingEngine Gen → Outcome Gen
  dispatch (new_order n) e = handle_new_order next_id n e
  dispatch (cancel_order order_id user_id symbol timestamp) e =
      some (handle_cancel_order order_id user_id timestamp e)
  dispatch (amend_order a) e = handle_amend_order next_id a e
  dispatch (cancel_all_orders user_id symbol timestamp) e =
      some (handle_cancel_all user_id symbol timestamp e)
  dispatch (update_mark symbol mark index timestamp) e =
      update_mark_price next_id symbol mark index timestamp e
  dispatch (funding symbol timestamp) e = compute_funding symbol timestamp e
  dispatch (admin_credit user_id amount key timestamp) e = some ([], e)

  unfoldable pub process_command : Command → MatchingEngine Gen → Outcome Gen
  unfolding dispatch
  process_command cmd e = dispatch cmd (record e { sequence = (e.sequence + 1) % word })
