-- ===== src/Engine/Accept.antt =====
-- The branches of `handle_new_order` of crates/exg-matching-engine/src/engine.rs.
use exg.Prelude.{◌||◌, Option, none, some, [], ◌∷◌, ◌++◌, if◌then◌else◌}
use exg.Decimal.{Decimal128, is_zero, is_negative}
use exg.Decimal.Panic.{◌>>=◌}
use exg.Common.Types.{is_conditional}
use exg.Matching.Book.{BookOrder, OrderBook, get_order}
use exg.Matching.Matcher.{MatchResult, match_order}
use exg.Engine.Messages.{TradeId, NewOrder, invalid_order, duplicate_order}
use exg.Engine.State.{MatchingEngine, Outcome}
use exg.Engine.Trades.{emit_fill_events}
use exg.Engine.Entry.{
  is_some, effective_price, check_visible, build_order, accept_event, match_reason, refill,
  place_rest, reject,
}

-- A conditional order waits for its trigger.
unfoldable pub queue_stop :
    {Gen : Type 0} → NewOrder → Decimal128 → MatchingEngine Gen → Outcome Gen
queue_stop n price e = some (
  accept_event n price e.mark_price ∷ [],
  record e { stop_orders = e.stop_orders ++ (build_order n price e.mark_price ∷ []) },
)

module _ {Gen : Type 0} (next_id : Gen → TradeId × Gen) where
  -- After the match: its result, what is left of the order, and the book.
  unfoldable pub settle_match :
      NewOrder → Decimal128 → MatchResult × BookOrder × OrderBook → MatchingEngine Gen → Outcome Gen
  settle_match n price (result, taker, book) e =
      let matched = record e { orderbook = book } in
      if result.rejected
      then reject n (match_reason n.time_in_force) matched
      else emit_fill_events next_id result.fills n.symbol n.timestamp taker.remaining_qty matched
        >>= λ emitted.
            let placed = place_rest n (refill n taker) emitted.1 in
            some ((accept_event n price e.mark_price ∷ emitted.0) ++ placed.0, placed.1)

  unfoldable pub accept_order : NewOrder → Decimal128 → MatchingEngine Gen → Outcome Gen
  unfolding queue_stop settle_match
  accept_order n price e =
      if is_conditional n.order_type
      then queue_stop n price e
      else settle_match n price (match_order (build_order n price e.mark_price) e.orderbook) e

  -- The order has a price; an iceberg is refused where too little of it is visible.
  unfoldable pub enter_priced : NewOrder → Option Decimal128 → MatchingEngine Gen → Outcome Gen
  unfolding accept_order
  enter_priced n none e = reject n invalid_order e
  enter_priced n (some price) e = check_visible n e.symbol_config >>= λ enough.
      if enough then accept_order n price e else reject n invalid_order e

  unfoldable pub handle_new_order : NewOrder → MatchingEngine Gen → Outcome Gen
  unfolding enter_priced
  handle_new_order n e =
      if is_zero n.quantity || is_negative n.quantity
      then reject n invalid_order e
      else if is_some (get_order n.order_id e.orderbook)
      then reject n duplicate_order e
      else enter_priced n (effective_price n) e
