-- ===== src/Engine/TradeIds.antt =====
-- The ids of the trades, through the handlers of crates/exg-matching-engine/src/engine.rs.
use mathlib.Core.List.{append-nil}
use exg.Prelude.{◌≡◌, refl, Bool-cases, inl, inr, ◌||◌, List, [], ◌∷◌, ◌++◌, Option, none, some}
use exg.Decimal.{Decimal128, is_zero}
use exg.Decimal.Panic.{mul, Ensures, returns, Ensures-bind, Ensures-then}
use exg.Common.Error.{SymbolId, UnixMicros}
use exg.Common.Types.{Side, buy, sell, is_limit, TimeInForce, gtc, ioc, fok, gtd, post_only}
use exg.Matching.Book.{BookOrder, OrderBook}
use exg.Matching.Matcher.{Fill}
use exg.Risk.Types.{SymbolConfig}
use exg.Engine.Messages.{TradeId, NewOrder, Trade, Event}
use exg.Engine.State.{MatchingEngine}
use exg.Engine.Trades.{trade_of, make_trade, fill_events, emit_fill_events}
use exg.Engine.Entry.{is_iceberg, watch_expiry, rest_order, place_rest}
use exg.Engine.Numbering.{trade_ids, trade_ids-append, Draws}

trade_of-trade_id :
    (side : Side) (fill : Fill) (m t : Decimal128) (id : TradeId) (symbol : SymbolId)
    (timestamp : UnixMicros)
    → (trade_of side fill m t id symbol timestamp).trade_id ≡ id
unfolding trade_of
trade_of-trade_id buy fill m t id symbol timestamp = refl
trade_of-trade_id sell fill m t id symbol timestamp = refl

make_trade-trade_id :
    (config : SymbolConfig) (fill : Fill) (id : TradeId) (symbol : SymbolId)
    (timestamp : UnixMicros)
    → Ensures (λ trade. trade.trade_id ≡ id) (make_trade config fill id symbol timestamp)
unfolding make_trade
make_trade-trade_id config fill id symbol timestamp =
    Ensures-then (mul fill.price fill.quantity) (λ notional.
      Ensures-then (mul notional config.maker_fee) (λ m.
        Ensures-then (mul notional config.taker_fee) (λ t.
          returns (trade_of fill.taker_side fill m t id symbol timestamp)
            (trade_of-trade_id fill.taker_side fill m t id symbol timestamp))))

trade_ids-fill_events :
    (book : OrderBook) (left : Decimal128) (symbol : SymbolId) (timestamp : UnixMicros)
    (fill : Fill) (trade : Trade) (es : List Event)
    → trade_ids (fill_events book left symbol timestamp fill trade ++ es)
      ≡ trade.trade_id ∷ trade_ids es
unfolding fill_events trade_ids
trade_ids-fill_events book left symbol timestamp fill trade es = refl

module _ {Gen : Type 0} where
  -- No trade, and no id drawn.
  abbrev pub Quiet : MatchingEngine Gen → List Event × MatchingEngine Gen → Type 0
  Quiet e r = (trade_ids r.0 ≡ []) × (r.1.trade_id_gen ≡ e.trade_id_gen)

  pub nil-Quiet : (e : MatchingEngine Gen) → Quiet e ([], e)
  unfolding trade_ids
  nil-Quiet e = (refl, refl)

  watch_expiry-gen :
      (time : Option UnixMicros) (order : BookOrder) (e : MatchingEngine Gen)
      → (watch_expiry time order e).trade_id_gen ≡ e.trade_id_gen
  watch_expiry-gen none order e = refl
  watch_expiry-gen (some time) order e = refl

  rest_limit_order-Quiet :
      (n : NewOrder) (order : BookOrder) (e : MatchingEngine Gen)
      → Quiet e (rest_order gtc n order e)
  unfolding rest_order trade_ids
  rest_limit_order-Quiet n order e =
      elim (Bool-cases (is_limit n.order_type || is_iceberg n.order_type)) [
        | inl rests ↦ rw rests (refl, watch_expiry-gen order.expire_time order e)
        | inr ends ↦ rw ends (refl, refl)
      ]

  rest_order-Quiet :
      (tif : TimeInForce) (n : NewOrder) (order : BookOrder) (e : MatchingEngine Gen)
      → Quiet e (rest_order tif n order e)
  unfolding rest_order trade_ids
  rest_order-Quiet ioc n order e = (refl, refl)
  rest_order-Quiet fok n order e = (refl, refl)
  rest_order-Quiet gtc n order e = rest_limit_order-Quiet n order e
  rest_order-Quiet gtd n order e = rest_limit_order-Quiet n order e
  rest_order-Quiet post_only n order e = rest_limit_order-Quiet n order e

  pub place_rest-Quiet :
      (n : NewOrder) (order : BookOrder) (e : MatchingEngine Gen) → Quiet e (place_rest n order e)
  unfolding place_rest trade_ids
  place_rest-Quiet n order e = elim (Bool-cases (is_zero order.remaining_qty)) [
    | inl gone ↦ rw gone (refl, refl)
    | inr left ↦ rw left (rest_order-Quiet n.time_in_force n order e)
  ]

module _ {Gen : Type 0} (next_id : Gen → TradeId × Gen) where
  -- The trades have the ids that the generator draws one after another.
  abbrev pub Numbered : MatchingEngine Gen → List Event × MatchingEngine Gen → Type 0
  Numbered e r = Draws next_id e.trade_id_gen r.1.trade_id_gen (trade_ids r.0)

  pub Quiet-Numbered :
      (e : MatchingEngine Gen) (r : List Event × MatchingEngine Gen) → Quiet e r → Numbered e r
  Quiet-Numbered e r q = rw q.0 q.1

  pub emit-Numbered :
      (fills : List Fill) (symbol : SymbolId) (timestamp : UnixMicros) (left : Decimal128)
      (e : MatchingEngine Gen)
      → Ensures (Numbered e) (emit_fill_events next_id fills symbol timestamp left e)
  unfolding emit_fill_events
  emit-Numbered [] symbol timestamp left e =
      returns ([], e) (Quiet-Numbered e ([], e) (nil-Quiet e))
  emit-Numbered (fill ∷ fills) symbol timestamp left e =
      let drawn = next_id e.trade_id_gen in
      let e' = record e { trade_id_gen = drawn.1 } in
      Ensures-bind (λ trade. trade.trade_id ≡ drawn.0)
        (make_trade-trade_id e.symbol_config fill drawn.0 symbol timestamp)
        (λ trade t.
          Ensures-bind (Numbered e') (emit-Numbered fills symbol timestamp left e') (λ rest h.
            returns (fill_events e.orderbook left symbol timestamp fill trade ++ rest.0, rest.1)
              (rw trade_ids-fill_events (t, h))))

  -- What is numbered stays so where the events around the trades and the rest of the engine change.
  pub then-Quiet :
      (e : MatchingEngine Gen) (r s : List Event × MatchingEngine Gen)
      → Numbered e r
      → Quiet r.1 s
      → Numbered e (r.0 ++ s.0, s.1)
  then-Quiet e r s h q = rw (trade_ids-append, q.0, append-nil, q.1) h
