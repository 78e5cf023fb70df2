-- ===== src/Engine/Amend.antt =====
-- `handle_amend_order` of crates/exg-matching-engine/src/engine.rs.
use exg.Prelude.{◌==◌, ◌&&◌, ◌||◌, not, Bool, false, Option, none, some, [], ◌∷◌, if◌then◌else◌}
use exg.Prelude.Assoc.{or_else}
use exg.Decimal.{Decimal128, is_zero, is_negative, eq_dec, lt_dec}
use exg.Decimal.Panic.{◌>>=◌}
use exg.Common.Types.{is_limit}
use exg.Matching.Book.{BookOrder, OrderBook, get_order, insert_order, remove_order, update_qty}
use exg.Matching.Matcher.{MatchResult, match_order}
use exg.Engine.Messages.{
  TradeId, AmendOrder, Event, accepted, rejected, canceled, RejectReason, invalid_order,
  order_not_found,
}
use exg.Engine.State.{MatchingEngine, Outcome}
use exg.Engine.Trades.{emit_fill_events}
use exg.Engine.Entry.{match_reason}

abbrev pub amend_event : AmendOrder → BookOrder → Event
amend_event a order = accepted (record {
  order_id = a.order_id;
  user_id = a.user_id;
  symbol = a.symbol;
  client_order_id = order.client_order_id;
  timestamp = a.timestamp;
  side = order.side;
  order_type = order.order_type;
  time_in_force = order.time_in_force;
  price = order.price;
  quantity = order.original_qty;
  stop_price = order.stop_price;
  reduce_only = order.is_reduce_only;
  visible_quantity = order.visible_qty;
  trailing_delta = order.trailing_delta;
  trailing_peak_price = order.trailing_peak_price;
})

abbrev pub amend_refusal : AmendOrder → RejectReason → Event
amend_refusal a reason = rejected a.order_id a.user_id reason a.timestamp

abbrev pub amend_cancel : AmendOrder → BookOrder → Event
amend_cancel a old = canceled a.order_id a.user_id a.symbol old.remaining_qty a.timestamp

-- `is_some_and`
abbrev pub some_and : Option Decimal128 → (Decimal128 → Bool) → Bool
some_and none test = false
some_and (some x) test = test x

unfoldable pub price_changed : AmendOrder → BookOrder → Bool
price_changed a existing = some_and a.new_price λ p. not (eq_dec p existing.price)

unfoldable pub qty_down : AmendOrder → BookOrder → Bool
qty_down a existing = some_and a.new_quantity λ q. lt_dec q existing.remaining_qty

unfoldable pub qty_up : AmendOrder → BookOrder → Bool
qty_up a existing = some_and a.new_quantity λ q. lt_dec existing.remaining_qty q

abbrev pub not_positive : Decimal128 → Bool
not_positive x = is_zero x || is_negative x

-- The old order at its new price and with its new quantity.
unfoldable pub amended_order : AmendOrder → BookOrder → BookOrder
amended_order a old = record old {
  price = or_else a.new_price old.price;
  remaining_qty = or_else a.new_quantity old.remaining_qty;
  original_qty = or_else a.new_quantity old.remaining_qty;
  timestamp = a.timestamp;
}

module _ {Gen : Type 0} where
  abbrev pub refuse_amend : AmendOrder → RejectReason → MatchingEngine Gen → Outcome Gen
  refuse_amend a reason e = some (amend_refusal a reason ∷ [], e)

  -- The rest of an amended order rests on the book.
  unfoldable pub rest_limit : BookOrder → MatchingEngine Gen → MatchingEngine Gen
  rest_limit order e =
      if not (is_zero order.remaining_qty) && is_limit order.order_type
      then record e { orderbook = insert_order order e.orderbook }
      else e

  -- The order after its quantity was changed in place; a missing one is a panic.
  unfoldable pub report_updated : AmendOrder → Option BookOrder → MatchingEngine Gen → Outcome Gen
  report_updated a none e = none
  report_updated a (some updated) e = some (amend_event a updated ∷ [], e)

  unfoldable pub reduce_in_place : AmendOrder → Option Decimal128 → MatchingEngine Gen → Outcome Gen
  unfolding report_updated
  reduce_in_place a none e = none
  reduce_in_place a (some new_q) e =
      let book = update_qty a.order_id new_q e.orderbook in
      if not_positive new_q
      then refuse_amend a invalid_order e
      else report_updated a (get_order a.order_id book) (record e { orderbook = book })

module _ {Gen : Type 0} (next_id : Gen → TradeId × Gen) where
  -- After the match of the amended order: its result, what is left of it, and the book.
  unfoldable pub settle_amended :
      AmendOrder
      → BookOrder
      → MatchResult × BookOrder × OrderBook
      → MatchingEngine Gen
      → Outcome Gen
  unfolding rest_limit
  settle_amended a old (result, order, book) e =
      let matched = record e { orderbook = book } in
      if result.rejected
      then some
          (amend_cancel a old ∷ amend_refusal a (match_reason order.time_in_force) ∷ [], matched)
      else emit_fill_events next_id result.fills a.symbol a.timestamp order.remaining_qty matched
        >>= λ emitted.
            some (amend_cancel a old ∷ amend_event a order ∷ emitted.0, rest_limit order emitted.1)

  -- The order comes off the book and enters it anew; a missing one is a panic.
  unfoldable pub replace_order :
      AmendOrder → Option BookOrder × OrderBook → MatchingEngine Gen → Outcome Gen
  unfolding settle_amended amended_order
  replace_order a (none, book) e = none
  replace_order a (some old, book) e =
      let amended = amended_order a old in
      if not_positive amended.remaining_qty || not_positive amended.price
      then some
          (amend_cancel a old ∷ amend_refusal a invalid_order ∷ [], record e { orderbook = book })
      else settle_amended a old (match_order amended book) (record e { orderbook = book })

  unfoldable pub amend_owned : AmendOrder → BookOrder → MatchingEngine Gen → Outcome Gen
  unfolding replace_order reduce_in_place
  amend_owned a existing e =
      if price_changed a existing || qty_up a existing
      then replace_order a (remove_order a.order_id e.orderbook) e
      else if qty_down a existing
      then reduce_in_place a a.new_quantity e
      else some (amend_event a existing ∷ [], e)

  unfoldable pub amend_found : AmendOrder → Option BookOrder → MatchingEngine Gen → Outcome Gen
  unfolding amend_owned
  amend_found a none e = refuse_amend a order_not_found e
  amend_found a (some existing) e =
      if existing.user_id == a.user_id
      then amend_owned a existing e
      else refuse_amend a order_not_found e

  unfoldable pub handle_amend_order : AmendOrder → MatchingEngine Gen → Outcome Gen
  unfolding amend_found
  handle_amend_order a e = amend_found a (get_order a.order_id e.orderbook) e
