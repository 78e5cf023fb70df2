-- ===== src/Engine/Frames.antt =====
-- What the emission of fill events does to the engine of crates/exg-matching-engine/src/engine.rs:
-- it draws trade ids, and no more.
use exg.Prelude.{◌≡◌, refl, Bool-cases, inl, inr, ◌&&◌, not, List, [], ◌∷◌}
use exg.Decimal.{Decimal128, is_zero}
use exg.Decimal.Panic.{Ensures, returns, Ensures-bind, Ensures-then}
use exg.Common.Error.{SymbolId, UnixMicros}
use exg.Common.Types.{is_limit}
use exg.Matching.Book.{BookOrder}
use exg.Matching.Matcher.{Fill}
use exg.Engine.Messages.{TradeId}
use exg.Engine.State.{MatchingEngine}
use exg.Engine.Trades.{emit_fill_events}
use exg.Engine.Amend.{rest_limit}

module _ {Gen : Type 0} where
  -- The engine is as before, but for the generator.
  abbrev pub SameButGen : MatchingEngine Gen → MatchingEngine Gen → Type 0
  SameButGen e e' = e' ≡ record e { trade_id_gen = e'.trade_id_gen }

  pub rest_limit-stops :
      (order : BookOrder) (e : MatchingEngine Gen)
      → (rest_limit order e).stop_orders ≡ e.stop_orders
  unfolding rest_limit
  rest_limit-stops order e =
      elim (Bool-cases (not (is_zero order.remaining_qty) && is_limit order.order_type)) [
        | inl rests ↦ rw rests refl
        | inr ends ↦ rw ends refl
      ]

  pub rest_limit-gen :
      (order : BookOrder) (e : MatchingEngine Gen)
      → (rest_limit order e).trade_id_gen ≡ e.trade_id_gen
  unfolding rest_limit
  rest_limit-gen order e =
      elim (Bool-cases (not (is_zero order.remaining_qty) && is_limit order.order_type)) [
        | inl rests ↦ rw rests refl
        | inr ends ↦ rw ends refl
      ]

module _ {Gen : Type 0} (next_id : Gen → TradeId × Gen) where
  pub emit-SameButGen :
      (fills : List Fill) (symbol : SymbolId) (timestamp : UnixMicros) (left : Decimal128)
      (e : MatchingEngine Gen)
      → Ensures (λ r. SameButGen e r.1) (emit_fill_events next_id fills symbol timestamp left e)
  unfolding emit_fill_events
  emit-SameButGen [] symbol timestamp left e = returns ([], e) refl
  emit-SameButGen (fill ∷ fills) symbol timestamp left e =
      let e' = record e { trade_id_gen = (next_id e.trade_id_gen).1 } in
      Ensures-then _ (λ trade.
        Ensures-bind (λ r. SameButGen e' r.1) (emit-SameButGen fills symbol timestamp left e')
          (λ rest h. returns _ h))
