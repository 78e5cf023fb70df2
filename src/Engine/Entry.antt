-- ===== src/Engine/Entry.antt =====
-- `handle_new_order` of crates/exg-matching-engine/src/engine.rs.
use exg.Prelude.{
  ◌+◌, ◌%◌, ◌&&◌, ◌||◌, not, Bool, true, false, pos, Option, none, some, List, [], ◌∷◌,
  if◌then◌else◌,
}
use exg.Decimal.{Decimal128, zero_dec, max_dec, sub, min, is_zero, is_positive, lt_dec}
use exg.Decimal.Panic.{◌>>=◌, mul, from_i64}
use exg.Common.Error.{UnixMicros}
use exg.Common.Types.{Side, buy, sell, OrderType, is_limit, TimeInForce, ioc, fok, gtd, post_only}
use exg.Risk.Types.{SymbolConfig}
use exg.Ids.Snowflake.{word}
use exg.Matching.Book.{BookOrder, insert_order}
use exg.Engine.Messages.{
  NewOrder, Event, accepted, rejected, canceled, RejectReason, post_only_would_take,
  fok_not_fillable,
}
use exg.Engine.State.{MatchingEngine, Outcome, push_expiry}

abbrev pub is_some : Option BookOrder → Bool
is_some none = false
is_some (some order) = true

abbrev pub is_iceberg : OrderType → Bool
is_iceberg OrderType.iceberg = true
is_iceberg _ = false

-- `MAX` for a buy and `ZERO` for a sale
unfoldable pub market_price : Side → Decimal128
market_price buy = max_dec
market_price sell = zero_dec

abbrev pub positive_price : Option Decimal128 → Option Decimal128
positive_price none = none
positive_price (some p) = if is_positive p then some p else none

-- `none` where the price of a limit order is missing or not positive.
unfoldable pub effective_price : NewOrder → Option Decimal128
unfolding is_limit market_price
effective_price n =
    if is_limit n.order_type then positive_price n.price else some (market_price n.side)

-- Whether the visible part of an iceberg is large enough; `none` is a panic.
unfoldable pub visible_enough : SymbolConfig → Option Decimal128 → Option Bool
visible_enough config none = some false
visible_enough config (some vis) =
    mul config.lot_size (from_i64 (pos 10)) >>= λ min_visible. some (not (lt_dec vis min_visible))

unfoldable pub check_visible : NewOrder → SymbolConfig → Option Bool
unfolding visible_enough
check_visible n config =
    if is_iceberg n.order_type then visible_enough config n.visible_quantity else some true

-- What is shown of an order; an iceberg without a visible quantity has been refused.
abbrev pub shown : Option Decimal128 → Decimal128 → Decimal128
shown none quantity = quantity
shown (some vis) quantity = min vis quantity

abbrev pub visible_part : NewOrder → Decimal128
visible_part n = if is_iceberg n.order_type then shown n.visible_quantity n.quantity else n.quantity

abbrev pub hidden_part : NewOrder → Decimal128
hidden_part n = if is_iceberg n.order_type then sub n.quantity (visible_part n) else zero_dec

-- 24 hours from the order; the sum of two `u64` wraps.
abbrev pub expire_at : TimeInForce → UnixMicros → Option UnixMicros
expire_at gtd timestamp = some ((timestamp + 86400000000) % word)
expire_at _ timestamp = none

abbrev pub peak_price : Option Decimal128 → Decimal128 → Option Decimal128
peak_price none mark_price = none
peak_price (some delta) mark_price = some mark_price

unfoldable pub build_order : NewOrder → Decimal128 → Decimal128 → BookOrder
build_order n price mark_price = record {
  order_id = n.order_id;
  user_id = n.user_id;
  symbol = n.symbol;
  side = n.side;
  price = price;
  remaining_qty = visible_part n;
  original_qty = n.quantity;
  order_type = n.order_type;
  time_in_force = n.time_in_force;
  is_reduce_only = n.reduce_only;
  timestamp = n.timestamp;
  visible_qty = n.visible_quantity;
  hidden_qty = hidden_part n;
  trailing_delta = n.trailing_delta;
  trailing_peak_price = peak_price n.trailing_delta mark_price;
  expire_time = expire_at n.time_in_force n.timestamp;
  client_order_id = n.client_order_id;
  stop_price = n.stop_price;
}

abbrev pub accept_event : NewOrder → Decimal128 → Decimal128 → Event
accept_event n price mark_price = accepted (record {
  order_id = n.order_id;
  user_id = n.user_id;
  symbol = n.symbol;
  client_order_id = n.client_order_id;
  timestamp = n.timestamp;
  side = n.side;
  order_type = n.order_type;
  time_in_force = n.time_in_force;
  price = price;
  quantity = n.quantity;
  stop_price = n.stop_price;
  reduce_only = n.reduce_only;
  visible_quantity = n.visible_quantity;
  trailing_delta = n.trailing_delta;
  trailing_peak_price = peak_price n.trailing_delta mark_price;
})

abbrev pub reject_event : NewOrder → RejectReason → Event
reject_event n reason = rejected n.order_id n.user_id reason n.timestamp

-- The reason of the matcher's rejection.
abbrev pub match_reason : TimeInForce → RejectReason
match_reason post_only = post_only_would_take
match_reason _ = fok_not_fillable

abbrev pub show_next : Option Decimal128 → BookOrder → Decimal128
show_next none order = min order.original_qty order.hidden_qty
show_next (some vis) order = min vis order.hidden_qty

-- The next slice of an iceberg whose visible slice was taken.
unfoldable pub refill : NewOrder → BookOrder → BookOrder
refill n order =
    if is_iceberg n.order_type && is_zero order.remaining_qty && not (is_zero order.hidden_qty)
    then record order {
      hidden_qty = sub order.hidden_qty (show_next order.visible_qty order);
      remaining_qty = show_next order.visible_qty order;
      timestamp = n.timestamp;
    }
    else order

abbrev pub cancel_rest : NewOrder → BookOrder → List Event
cancel_rest n order = canceled n.order_id n.user_id n.symbol order.remaining_qty n.timestamp ∷ []

module _ {Gen : Type 0} where
  -- An order with a time of expiry goes into the heap too.
  abbrev pub watch_expiry : Option UnixMicros → BookOrder → MatchingEngine Gen → MatchingEngine Gen
  watch_expiry none order e = e
  watch_expiry (some time) order e = record e {
    expiry_heap = push_expiry (time, order.order_id) e.expiry_heap;
  }

  abbrev pub insert : BookOrder → MatchingEngine Gen → MatchingEngine Gen
  insert order e = record e { orderbook = insert_order order e.orderbook }

  unfoldable pub rest_order :
      TimeInForce → NewOrder → BookOrder → MatchingEngine Gen → List Event × MatchingEngine Gen
  rest_order ioc n order e = (cancel_rest n order, e)
  rest_order fok n order e = (cancel_rest n order, e)
  rest_order _ n order e =
      if is_limit n.order_type || is_iceberg n.order_type
      then ([], insert order (watch_expiry order.expire_time order e))
      else (cancel_rest n order, e)

  -- What is left of an order after the match.
  unfoldable pub place_rest :
      NewOrder → BookOrder → MatchingEngine Gen → List Event × MatchingEngine Gen
  unfolding rest_order
  place_rest n order e =
      if is_zero order.remaining_qty then ([], e) else rest_order n.time_in_force n order e

  unfoldable pub reject : NewOrder → RejectReason → MatchingEngine Gen → Outcome Gen
  reject n reason e = some (reject_event n reason ∷ [], e)
