-- ===== src/Engine/Stops.antt =====
-- Conditional orders of crates/exg-matching-engine/src/engine.rs: peaks, triggers and what is done
-- with the orders that are triggered.
use exg.Prelude.{Bool, true, false, Option, none, some, List, [], ◌∷◌, ◌++◌, map, if◌then◌else◌}
use exg.Prelude.Assoc.{or_else}
use exg.Decimal.{Decimal128, zero_dec, add, sub, lt_dec, le_dec}
use exg.Decimal.Panic.{◌>>=◌}
use exg.Common.Error.{SymbolId, UnixMicros}
use exg.Common.Types.{Side, buy, sell, OrderType}
use exg.Matching.Book.{BookOrder, OrderBook}
use exg.Matching.Matcher.{MatchResult, match_order}
use exg.Engine.Messages.{TradeId, mark_price_update}
use exg.Engine.State.{MatchingEngine, Outcome}
use exg.Engine.Trades.{emit_fill_events}
use exg.Engine.Entry.{market_price}
use exg.Engine.Amend.{rest_limit}
use exg.Engine.Cancel.{swap_extract}

abbrev pub is_trailing : OrderType → Bool
is_trailing OrderType.trailing_stop = true
is_trailing _ = false

-- The peak of a sale rises with the price, that of a buy falls with it.
unfoldable pub follow : Side → Decimal128 → Decimal128 → Decimal128
follow sell mark peak = if lt_dec peak mark then mark else peak
follow buy mark peak = if lt_dec mark peak then mark else peak

abbrev pub follow_peak : Side → Decimal128 → Option Decimal128 → Option Decimal128
follow_peak side mark none = none
follow_peak side mark (some peak) = some (follow side mark peak)

unfoldable pub update_peak : Decimal128 → BookOrder → BookOrder
unfolding follow
update_peak mark order =
    if is_trailing order.order_type
    then record order {
      trailing_peak_price = follow_peak order.side mark order.trailing_peak_price;
    }
    else order

-- A stop triggers when the price has come as far as `stop`, a take-profit when it has gone back.
unfoldable pub stop_reached : Side → Decimal128 → Decimal128 → Bool
stop_reached buy mark stop = le_dec stop mark
stop_reached sell mark stop = le_dec mark stop

unfoldable pub profit_reached : Side → Decimal128 → Decimal128 → Bool
profit_reached buy mark stop = le_dec mark stop
profit_reached sell mark stop = le_dec stop mark

unfoldable pub trail_reached : Side → Decimal128 → Option Decimal128 → Option Decimal128 → Bool
trail_reached sell mark (some delta) (some peak) = le_dec mark (sub peak delta)
trail_reached buy mark (some delta) (some peak) = le_dec (add peak delta) mark
trail_reached _ mark _ _ = false

unfoldable pub triggers : OrderType → Decimal128 → BookOrder → Bool
unfolding stop_reached profit_reached trail_reached
triggers OrderType.stop_market mark o = stop_reached o.side mark (or_else o.stop_price zero_dec)
triggers OrderType.stop_limit mark o = stop_reached o.side mark (or_else o.stop_price zero_dec)
triggers OrderType.take_profit_market mark o =
    profit_reached o.side mark (or_else o.stop_price zero_dec)
triggers OrderType.take_profit_limit mark o =
    profit_reached o.side mark (or_else o.stop_price zero_dec)
triggers OrderType.trailing_stop mark o =
    trail_reached o.side mark o.trailing_delta o.trailing_peak_price
triggers _ mark o = false

abbrev pub should_trigger : Decimal128 → BookOrder → Bool
should_trigger mark o = triggers o.order_type mark o

-- A triggered order as the market or limit order that it becomes.
unfoldable pub activate_as : OrderType → BookOrder → BookOrder
unfolding market_price
activate_as OrderType.stop_market o = record o {
  order_type = OrderType.market;
  price = market_price o.side;
}
activate_as OrderType.take_profit_market o = record o {
  order_type = OrderType.market;
  price = market_price o.side;
}
activate_as OrderType.trailing_stop o = record o {
  order_type = OrderType.market;
  price = market_price o.side;
}
activate_as OrderType.stop_limit o = record o { order_type = OrderType.limit }
activate_as OrderType.take_profit_limit o = record o { order_type = OrderType.limit }
activate_as _ o = o

abbrev pub activate : BookOrder → BookOrder
activate o = activate_as o.order_type o

module _ {Gen : Type 0} where
  unfoldable pub apply_mark_index_passive :
      Decimal128 → Decimal128 → MatchingEngine Gen → MatchingEngine Gen
  unfolding update_peak
  apply_mark_index_passive mark index e = record e {
    mark_price = mark;
    index_price = index;
    stop_orders = map (update_peak mark) e.stop_orders;
  }

  -- The orders that are triggered, and the engine without them.
  unfoldable pub check_stop_triggers : MatchingEngine Gen → List BookOrder × MatchingEngine Gen
  unfolding swap_extract
  check_stop_triggers e =
      let split = swap_extract (should_trigger e.mark_price) e.stop_orders in
      (split.0, record e { stop_orders = split.1 })

module _ {Gen : Type 0} (next_id : Gen → TradeId × Gen) where
  unfoldable pub settle_triggered :
      MatchResult × BookOrder × OrderBook → UnixMicros → MatchingEngine Gen → Outcome Gen
  unfolding rest_limit
  settle_triggered (result, order, book) timestamp e =
      let matched = record e { orderbook = book } in
      if result.rejected
      then some ([], matched)
      else emit_fill_events next_id result.fills order.symbol timestamp order.remaining_qty matched
        >>= λ emitted. some (emitted.0, rest_limit order emitted.1)

  unfoldable pub match_triggered : List BookOrder → UnixMicros → MatchingEngine Gen → Outcome Gen
  unfolding settle_triggered
  match_triggered [] timestamp e = some ([], e)
  match_triggered (order ∷ orders) timestamp e =
      settle_triggered (match_order (activate order) e.orderbook) timestamp e >>= λ now.
      match_triggered orders timestamp now.1 >>= λ later. some (now.0 ++ later.0, later.1)

  unfoldable pub trigger_and_match_stops : UnixMicros → MatchingEngine Gen → Outcome Gen
  unfolding check_stop_triggers match_triggered
  trigger_and_match_stops timestamp e =
      let checked = check_stop_triggers e in match_triggered checked.0 timestamp checked.1

  unfoldable pub update_mark_price :
      SymbolId → Decimal128 → Decimal128 → UnixMicros → MatchingEngine Gen → Outcome Gen
  unfolding apply_mark_index_passive trigger_and_match_stops
  update_mark_price symbol mark index timestamp e =
      trigger_and_match_stops timestamp (apply_mark_index_passive mark index e) >>= λ done.
      some (mark_price_update symbol mark index timestamp ∷ done.0, done.1)
