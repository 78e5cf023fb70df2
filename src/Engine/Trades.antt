-- ===== src/Engine/Trades.antt =====
-- The events of the fills of an order, crates/exg-matching-engine/src/engine.rs.
use exg.Prelude.{true, false, Option, none, some, List, [], ◌∷◌, ◌++◌}
use exg.Decimal.{Decimal128, zero_dec}
use exg.Decimal.Panic.{◌>>=◌, mul}
use exg.Common.Error.{SymbolId, UnixMicros}
use exg.Common.Types.{Side, buy, sell, opposite}
use exg.Risk.Types.{SymbolConfig}
use exg.Matching.Book.{BookOrder, OrderBook, get_order}
use exg.Matching.Matcher.{Fill}
use exg.Engine.Messages.{TradeId, Trade, Event, filled, traded}
use exg.Engine.State.{MatchingEngine, Outcome}

-- The buyer and the seller of a fill, with their fees.
unfoldable pub trade_of :
    Side → Fill → Decimal128 → Decimal128 → TradeId → SymbolId → UnixMicros → Trade
trade_of buy fill maker_fee taker_fee trade_id symbol timestamp = record {
  trade_id = trade_id;
  symbol = symbol;
  price = fill.price;
  qty = fill.quantity;
  buyer_order_id = fill.taker_order_id;
  seller_order_id = fill.maker_order_id;
  buyer_user_id = fill.taker_user_id;
  seller_user_id = fill.maker_user_id;
  buyer_fee = taker_fee;
  seller_fee = maker_fee;
  timestamp = timestamp;
}
trade_of sell fill maker_fee taker_fee trade_id symbol timestamp = record {
  trade_id = trade_id;
  symbol = symbol;
  price = fill.price;
  qty = fill.quantity;
  buyer_order_id = fill.maker_order_id;
  seller_order_id = fill.taker_order_id;
  buyer_user_id = fill.maker_user_id;
  seller_user_id = fill.taker_user_id;
  buyer_fee = maker_fee;
  seller_fee = taker_fee;
  timestamp = timestamp;
}

unfoldable pub make_trade : SymbolConfig → Fill → TradeId → SymbolId → UnixMicros → Option Trade
unfolding trade_of
make_trade config fill trade_id symbol timestamp = do
  notional ← mul fill.price fill.quantity
  maker_fee ← mul notional config.maker_fee
  taker_fee ← mul notional config.taker_fee
  some (trade_of fill.taker_side fill maker_fee taker_fee trade_id symbol timestamp)

-- `map(|o| o.remaining_qty).unwrap_or(ZERO)`
abbrev pub qty_left : Option BookOrder → Decimal128
qty_left none = zero_dec
qty_left (some order) = order.remaining_qty

abbrev pub maker_event : OrderBook → SymbolId → UnixMicros → Fill → TradeId → Event
maker_event book symbol timestamp fill trade_id = filled (record {
  order_id = fill.maker_order_id;
  trade_id = trade_id;
  user_id = fill.maker_user_id;
  symbol = symbol;
  side = opposite fill.taker_side;
  fill_price = fill.price;
  fill_qty = fill.quantity;
  is_maker = true;
  remaining_qty = qty_left (get_order fill.maker_order_id book);
  timestamp = timestamp;
})

abbrev pub taker_event : Decimal128 → SymbolId → UnixMicros → Fill → TradeId → Event
taker_event taker_remaining symbol timestamp fill trade_id = filled (record {
  order_id = fill.taker_order_id;
  trade_id = trade_id;
  user_id = fill.taker_user_id;
  symbol = symbol;
  side = fill.taker_side;
  fill_price = fill.price;
  fill_qty = fill.quantity;
  is_maker = false;
  remaining_qty = taker_remaining;
  timestamp = timestamp;
})

-- The three events of a fill: the maker's, the taker's and the trade.
unfoldable pub fill_events :
    OrderBook → Decimal128 → SymbolId → UnixMicros → Fill → Trade → List Event
fill_events book taker_remaining symbol timestamp fill trade =
    maker_event book symbol timestamp fill trade.trade_id
    ∷ taker_event taker_remaining symbol timestamp fill trade.trade_id
    ∷ traded trade
    ∷ []

module _ {Gen : Type 0} (next_id : Gen → TradeId × Gen) where
  unfoldable pub emit_fill_events :
      List Fill → SymbolId → UnixMicros → Decimal128 → MatchingEngine Gen → Outcome Gen
  unfolding make_trade fill_events
  emit_fill_events [] symbol timestamp taker_remaining e = some ([], e)
  emit_fill_events (fill ∷ fills) symbol timestamp taker_remaining e =
      let drawn = next_id e.trade_id_gen in
      make_trade e.symbol_config fill drawn.0 symbol timestamp >>= λ trade.
      emit_fill_events fills symbol timestamp taker_remaining (record e { trade_id_gen = drawn.1 })
      >>= λ rest.
          some
            (fill_events e.orderbook taker_remaining symbol timestamp fill trade ++ rest.0, rest.1)
