-- ===== src/Engine/Triggers.antt =====
-- Which conditional orders a new mark price sets off, crates/exg-matching-engine/src/engine.rs.
use exg.Prelude.{◌≡◌, ◌∙◌, refl, sym, ap, Bool-cases, inl, inr, List, [], ◌∷◌, ◌++◌, map, some}
use mathlib.Core.Path.{subst}
use exg.Decimal.{Decimal128}
use exg.Decimal.Panic.{Ensures, returns, Ensures-bind, Ensures-some, Ensures-self, Ensures-also}
use exg.Common.Error.{SymbolId, UnixMicros}
use exg.Matching.Book.{BookOrder, OrderBook}
use exg.Matching.Matcher.{MatchResult, match_order}
use exg.Engine.Messages.{TradeId, Event, mark_price_update}
use exg.Engine.State.{MatchingEngine}
use exg.Engine.Stops.{
  update_peak, should_trigger, activate, apply_mark_index_passive, check_stop_triggers,
  settle_triggered, match_triggered, trigger_and_match_stops, update_mark_price,
}
use exg.Engine.Extraction.{swap_extract-Split}
use mathlib.Core.List.{Perm}
use exg.Prelude.Lists.{AllOf, AllOf-map}
use exg.Engine.Conditions.{
  Meets, Becomes, AllFollow, should_trigger-Meets, should_trigger_not-Meets, activate-Becomes,
  update_peak-AllFollow,
}
use exg.Engine.Frames.{SameButGen, emit-SameButGen, rest_limit-stops}

module _ {Gen : Type 0} (next_id : Gen → TradeId × Gen) where
  settle_triggered-stops :
      (r : MatchResult × BookOrder × OrderBook) (timestamp : UnixMicros) (e : MatchingEngine Gen)
      → Ensures
          (λ done. done.1.stop_orders ≡ e.stop_orders)
          (settle_triggered next_id r timestamp e)
  unfolding settle_triggered
  settle_triggered-stops (result, order, book) timestamp e = elim (Bool-cases result.rejected) [
    | inl no_fill ↦ rw no_fill (returns _ refl)
    | inr matched ↦
        let e' = record e { orderbook = book } in
        rw matched (
          Ensures-bind (λ done. SameButGen e' done.1)
            (emit-SameButGen next_id result.fills order.symbol timestamp order.remaining_qty e')
            (λ done h.
              returns _
                (rest_limit-stops order done.1 ∙ ap (λ (x : MatchingEngine Gen). x.stop_orders) h)))
  ]

  match_triggered-stops :
      (orders : List BookOrder) (timestamp : UnixMicros) (e : MatchingEngine Gen)
      → Ensures
          (λ done. done.1.stop_orders ≡ e.stop_orders)
          (match_triggered next_id orders timestamp e)
  unfolding match_triggered
  match_triggered-stops [] timestamp e = returns _ refl
  match_triggered-stops (order ∷ orders) timestamp e =
      Ensures-bind (λ done. done.1.stop_orders ≡ e.stop_orders)
        (settle_triggered-stops (match_order (activate order) e.orderbook) timestamp e)
        (λ now h.
          Ensures-bind (λ done. done.1.stop_orders ≡ now.1.stop_orders)
            (match_triggered-stops orders timestamp now.1) (λ later k. returns _ (k ∙ h)))

  -- Orders that enter the book one after another, each as the order that it becomes, with the
  -- events of all of them.
  pub data Entered (timestamp : UnixMicros)
      : List BookOrder → MatchingEngine Gen → List Event → MatchingEngine Gen → Type 0 where
    none_left : {e : MatchingEngine Gen} → Entered timestamp [] e [] e
    enters :
        {orders : List BookOrder} {e e' e'' : MatchingEngine Gen} {now later : List Event}
        (order active : BookOrder)
        → Becomes order active
        → settle_triggered next_id (match_order active e.orderbook) timestamp e ≡ some (now, e')
        → Entered timestamp orders e' later e''
        → Entered timestamp (order ∷ orders) e (now ++ later) e''

  match_triggered-Entered :
      (orders : List BookOrder) (timestamp : UnixMicros) (e : MatchingEngine Gen)
      → Ensures
          (λ done. Entered timestamp orders e done.0 done.1)
          (match_triggered next_id orders timestamp e)
  unfolding match_triggered
  match_triggered-Entered [] timestamp e = returns _ none_left
  match_triggered-Entered (order ∷ orders) timestamp e =
      Ensures-bind _
        (Ensures-self
          (settle_triggered next_id (match_order (activate order) e.orderbook) timestamp e))
        (λ now h. Ensures-bind _ (match_triggered-Entered orders timestamp now.1) (λ later k.
          returns (now.0 ++ later.0, later.1)
            (enters order (activate order) (activate-Becomes order) h k)))

  -- What a new mark price does: `followed` are the orders that waited, with their peaks moved.
  pub record Triggering (symbol : SymbolId) (mark index : Decimal128) (timestamp : UnixMicros)
      (e e' : MatchingEngine Gen) (events : List Event) : Type 0 where
    pub followed : List BookOrder
    pub triggered : List BookOrder
    pub trades : List Event
    pub peaks : AllFollow mark e.stop_orders followed
    pub whole : Perm followed (triggered ++ e'.stop_orders)
    pub met : AllOf (Meets mark) triggered
    pub unmet : AllOf (λ o. ¬ Meets mark o) e'.stop_orders
    pub reported : events ≡ mark_price_update symbol mark index timestamp ∷ trades
    pub entered :
        Entered timestamp triggered
          (record e { mark_price = mark; index_price = index; stop_orders = e'.stop_orders })
          trades
          e'

  update_mark_price-stops :
      (symbol : SymbolId) (mark index : Decimal128) (timestamp : UnixMicros)
      (e : MatchingEngine Gen)
      → Ensures
          (λ done. Triggering symbol mark index timestamp e done.1 done.0)
          (update_mark_price next_id symbol mark index timestamp e)
  unfolding update_mark_price trigger_and_match_stops check_stop_triggers apply_mark_index_passive
  update_mark_price-stops symbol mark index timestamp e =
      let stops = map (update_peak mark) e.stop_orders in
      let checked = check_stop_triggers (apply_mark_index_passive mark index e) in
      let split = swap_extract-Split (should_trigger mark) stops in
      Ensures-bind
        (λ done.
          (done.1.stop_orders ≡ checked.1.stop_orders)
          × Entered timestamp checked.0 checked.1 done.0 done.1)
        {f = λ done. some (mark_price_update symbol mark index timestamp ∷ done.0, done.1)}
        (Ensures-also (match_triggered-stops checked.0 timestamp checked.1)
          (match_triggered-Entered checked.0 timestamp checked.1))
        (λ done h.
          returns (mark_price_update symbol mark index timestamp ∷ done.0, done.1)
            (record {
              followed = stops;
              triggered = checked.0;
              trades = done.0;
              peaks = update_peak-AllFollow mark e.stop_orders;
              whole = subst (λ os. Perm stops (checked.0 ++ os)) (sym h.0) split.whole;
              met = AllOf-map _ _ checked.0 (should_trigger-Meets mark) split.passed;
              unmet = subst (AllOf (λ o. ¬ Meets mark o)) (sym h.0) (
                  AllOf-map _ _ checked.1.stop_orders (should_trigger_not-Meets mark) split.failed);
              reported = refl;
              entered =
                  subst
                    (λ os.
                      Entered timestamp checked.0
                        (record e { mark_price = mark; index_price = index; stop_orders = os })
                        done.0 done.1)
                    (sym h.0) h.1;
            }))

  -- A new mark price, once the command is through: the peaks of the trailing stops that waited
  -- are moved to the price where it is beyond them, and then the orders that waited are those
  -- that were triggered and those that wait now, each once. All of the triggered ones meet
  -- their condition at the price, and none of those that wait does: a stop that the price
  -- reaches, a take-profit whose level reaches the price, a trailing stop whose distance from
  -- its peak the price has come. Each of the triggered ones, and no other, becomes a market or
  -- a limit order, is matched against the book that the one before it left, and is settled,
  -- from the engine with the new prices and without the triggered orders to the one after the
  -- command; the events are that of the price and then those of the matching.
  pub update_mark_price-triggers :
      (symbol : SymbolId) (mark index : Decimal128) (timestamp : UnixMicros)
      (e e' : MatchingEngine Gen) (events : List Event)
      → update_mark_price next_id symbol mark index timestamp e ≡ some (events, e')
      → Triggering symbol mark index timestamp e e' events
  update_mark_price-triggers symbol mark index timestamp e e' events h =
      Ensures-some (λ done. Triggering symbol mark index timestamp e done.1 done.0)
        (update_mark_price-stops symbol mark index timestamp e) h
