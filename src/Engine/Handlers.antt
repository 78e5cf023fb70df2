-- ===== src/Engine/Handlers.antt =====
-- The handlers that trade, and those that do not, crates/exg-matching-engine/src/engine.rs.
use exg.Prelude.{
  ◌≡◌, refl, Bool-cases, inl, inr, ◌||◌, List, [], ◌∷◌, ◌++◌, Option, none, some, map, ◌==◌,
}
use exg.Decimal.{Decimal128, is_zero, is_negative}
use exg.Decimal.Panic.{Ensures, returns, Ensures-bind, Ensures-then}
use exg.Common.Error.{OrderId, UserId, SymbolId, UnixMicros}
use exg.Common.Types.{is_conditional}
use exg.Matching.Book.{BookOrder, OrderBook, get_order}
use exg.Matching.Matcher.{MatchResult, match_order}
use exg.Engine.Messages.{TradeId, NewOrder, Event, RejectReason, invalid_order, duplicate_order}
use exg.Engine.State.{MatchingEngine, Outcome}
use exg.Engine.Entry.{
  is_some, effective_price, check_visible, build_order, accept_event, match_reason, refill,
  place_rest, reject,
}
use exg.Engine.Accept.{queue_stop, settle_match, accept_order, enter_priced, handle_new_order}
use exg.Engine.Cancel.{
  take_stop, cancel_resting, cancel_stop, cancel_found, cancel_all_event, handle_cancel_all,
}
use exg.Engine.Numbering.{trade_ids}
use exg.Engine.TradeIds.{
  Quiet, Numbered, Quiet-Numbered, place_rest-Quiet, emit-Numbered, then-Quiet,
}

trade_ids-cancels :
    (user_id : UserId) (symbol : SymbolId) (timestamp : UnixMicros) (os : List BookOrder)
    → trade_ids (map (cancel_all_event user_id symbol timestamp) os) ≡ []
unfolding trade_ids
trade_ids-cancels user_id symbol timestamp [] = refl
trade_ids-cancels user_id symbol timestamp (o ∷ os) = trade_ids-cancels user_id symbol timestamp os

module _ {Gen : Type 0} where
  cancel_resting-Quiet :
      (order_id : OrderId) (user_id : UserId) (timestamp : UnixMicros) (order : BookOrder)
      (e : MatchingEngine Gen)
      → Quiet e (cancel_resting order_id user_id timestamp order e)
  unfolding cancel_resting trade_ids
  cancel_resting-Quiet order_id user_id timestamp order e =
      elim (Bool-cases (order.user_id == user_id)) [
        | inl own ↦ rw own (refl, refl)
        | inr foreign ↦ rw foreign (refl, refl)
      ]

  cancel_stop-Quiet :
      (order_id : OrderId) (user_id : UserId) (timestamp : UnixMicros)
      (found : Option BookOrder × List BookOrder) (e : MatchingEngine Gen)
      → Quiet e (cancel_stop order_id user_id timestamp found e)
  unfolding cancel_stop trade_ids
  cancel_stop-Quiet order_id user_id timestamp (none, others) e = (refl, refl)
  cancel_stop-Quiet order_id user_id timestamp (some order, others) e =
      elim (Bool-cases (order.user_id == user_id)) [
        | inl own ↦ rw own (refl, refl)
        | inr foreign ↦ rw foreign (refl, refl)
      ]

  pub cancel_found-Quiet :
      (order_id : OrderId) (user_id : UserId) (timestamp : UnixMicros)
      (found : Option BookOrder × OrderBook) (e : MatchingEngine Gen)
      → Quiet e (cancel_found order_id user_id timestamp found e)
  unfolding cancel_found
  cancel_found-Quiet order_id user_id timestamp (some order, book) e =
      cancel_resting-Quiet order_id user_id timestamp order (record e { orderbook = book })
  cancel_found-Quiet order_id user_id timestamp (none, book) e =
      cancel_stop-Quiet order_id user_id timestamp (take_stop order_id e.stop_orders)
        (record e { orderbook = book })

  pub handle_cancel_all-Quiet :
      (user_id : UserId) (symbol : SymbolId) (timestamp : UnixMicros) (e : MatchingEngine Gen)
      → Quiet e (handle_cancel_all user_id symbol timestamp e)
  unfolding handle_cancel_all
  handle_cancel_all-Quiet user_id symbol timestamp e =
      (trade_ids-cancels user_id symbol timestamp _, refl)

module _ {Gen : Type 0} (next_id : Gen → TradeId × Gen) where
  abbrev pub WellNumbered : MatchingEngine Gen → Outcome Gen → Type 0
  WellNumbered e m = Ensures (Numbered next_id e) m

  pub quiet :
      (e e' : MatchingEngine Gen) (es : List Event)
      → Quiet e (es, e')
      → WellNumbered e (some (es, e'))
  quiet e e' es q = returns (es, e') (Quiet-Numbered next_id e (es, e') q)

  reject-WellNumbered :
      (n : NewOrder) (reason : RejectReason) (e : MatchingEngine Gen)
      → WellNumbered e (reject n reason e)
  unfolding reject trade_ids
  reject-WellNumbered n reason e = quiet e e _ (refl, refl)

  settle_match-WellNumbered :
      (n : NewOrder) (price : Decimal128) (r : MatchResult × BookOrder × OrderBook)
      (e : MatchingEngine Gen)
      → WellNumbered e (settle_match next_id n price r e)
  unfolding settle_match trade_ids
  settle_match-WellNumbered n price (result, taker, book) e =
      let e' = record e { orderbook = book } in
      elim (Bool-cases result.rejected) [
        | inl refused ↦ rw refused (reject-WellNumbered n (match_reason n.time_in_force) e')
        | inr matched ↦ rw matched (
            Ensures-bind (Numbered next_id e')
              (emit-Numbered next_id result.fills n.symbol n.timestamp taker.remaining_qty e')
              (λ emitted h.
                let placed = place_rest n (refill n taker) emitted.1 in
                returns ((accept_event n price e.mark_price ∷ emitted.0) ++ placed.0, placed.1)
                  (then-Quiet next_id e (accept_event n price e.mark_price ∷ emitted.0, emitted.1)
                    placed h (place_rest-Quiet n (refill n taker) emitted.1))))
      ]

  accept_order-WellNumbered :
      (n : NewOrder) (price : Decimal128) (e : MatchingEngine Gen)
      → WellNumbered e (accept_order next_id n price e)
  unfolding accept_order queue_stop trade_ids
  accept_order-WellNumbered n price e = elim (Bool-cases (is_conditional n.order_type)) [
    | inl waits ↦ rw waits (quiet e _ _ (refl, refl))
    | inr enters ↦ rw enters (
        settle_match-WellNumbered n price
          (match_order (build_order n price e.mark_price) e.orderbook) e)
  ]

  enter_priced-WellNumbered :
      (n : NewOrder) (price : Option Decimal128) (e : MatchingEngine Gen)
      → WellNumbered e (enter_priced next_id n price e)
  unfolding enter_priced
  enter_priced-WellNumbered n none e = reject-WellNumbered n invalid_order e
  enter_priced-WellNumbered n (some price) e =
      Ensures-then (check_visible n e.symbol_config) (λ enough. elim (Bool-cases enough) [
        | inl large ↦ rw large (accept_order-WellNumbered n price e)
        | inr small ↦ rw small (reject-WellNumbered n invalid_order e)
      ])

  pub handle_new_order-WellNumbered :
      (n : NewOrder) (e : MatchingEngine Gen) → WellNumbered e (handle_new_order next_id n e)
  unfolding handle_new_order
  handle_new_order-WellNumbered n e =
      elim (Bool-cases (is_zero n.quantity || is_negative n.quantity)) [
        | inl empty ↦ rw empty (reject-WellNumbered n invalid_order e)
        | inr counts ↦ elim (Bool-cases (is_some (get_order n.order_id e.orderbook))) [
          | inl known ↦ rw (counts, known) (reject-WellNumbered n duplicate_order e)
          | inr fresh ↦ rw (counts, fresh) (enter_priced-WellNumbered n (effective_price n) e)
        ]
      ]
