-- ===== src/Engine/Runs.antt =====
-- The ids of the trades of a run of commands, crates/exg-matching-engine/src/engine.rs.
use mathlib.Core.Path.{subst}
use exg.Prelude.{
  ◌≡◌, refl, sym, Bool-cases, inl, inr, ◌||◌, List, [], ◌∷◌, ◌++◌, Option, none, some, ◌==◌,
}
use exg.Decimal.{Decimal128}
use exg.Decimal.Panic.{◌>>=◌, returns, aborts, Ensures-bind, Ensures-then, Ensures-some}
use exg.Common.Error.{SymbolId, UnixMicros}
use exg.Matching.Book.{BookOrder, OrderBook, get_order, remove_order, update_qty}
use exg.Matching.Matcher.{MatchResult, match_order}
use exg.Engine.Messages.{
  TradeId, AmendOrder, Event, Command, new_order, cancel_order, amend_order, cancel_all_orders,
  update_mark, funding, admin_credit, mark_price_update,
}
use exg.Engine.State.{MatchingEngine, Outcome}
use exg.Engine.Amend.{
  rest_limit, report_updated, reduce_in_place, settle_amended, replace_order, amend_owned,
  amend_found, handle_amend_order, price_changed, qty_up, qty_down, amended_order, not_positive,
  amend_event, amend_cancel,
}
use exg.Engine.Stops.{
  activate, apply_mark_index_passive, check_stop_triggers, settle_triggered, match_triggered,
  trigger_and_match_stops, update_mark_price,
}
use exg.Engine.Commands.{premium, compute_funding, dispatch, process_command}
use exg.Engine.Cancel.{handle_cancel_order}
use exg.Engine.Frames.{rest_limit-gen}
use exg.Engine.Numbering.{trade_ids, trade_ids-append, Draws, Draws-append}
use exg.Engine.TradeIds.{nil-Quiet, Numbered, emit-Numbered}
use exg.Engine.Handlers.{
  WellNumbered, quiet, handle_new_order-WellNumbered, cancel_found-Quiet, handle_cancel_all-Quiet,
}

module _ {Gen : Type 0} (next_id : Gen → TradeId × Gen) where
  -- The commands in their order, with all their events.
  unfoldable pub run_commands : List Command → MatchingEngine Gen → Outcome Gen
  run_commands [] e = some ([], e)
  run_commands (cmd ∷ cmds) e = process_command next_id cmd e >>= λ now.
      run_commands cmds now.1 >>= λ later. some (now.0 ++ later.0, later.1)

module _ {Gen : Type 0} (next_id : Gen → TradeId × Gen) where
  abbrev N : MatchingEngine Gen → List Event × MatchingEngine Gen → Type 0
  N e r = Numbered next_id e r

  abbrev W : MatchingEngine Gen → Outcome Gen → Type 0
  W e m = WellNumbered next_id e m

  -- The rest of an order goes onto the book, with no trade.
  rest-Numbered :
      (e e' : MatchingEngine Gen) (order : BookOrder) (es : List Event)
      → N e (es, e')
      → N e (es, rest_limit order e')
  rest-Numbered e e' order es h =
      subst (λ g. Draws next_id e.trade_id_gen g (trade_ids es)) (sym (rest_limit-gen order e')) h

  settle_amended-W :
      (a : AmendOrder) (old : BookOrder) (r : MatchResult × BookOrder × OrderBook)
      (e : MatchingEngine Gen)
      → W e (settle_amended next_id a old r e)
  unfolding settle_amended trade_ids
  settle_amended-W a old (result, order, book) e =
      let e' = record e { orderbook = book } in
      elim (Bool-cases result.rejected) [
        | inl refused ↦ rw refused (quiet next_id e e' _ (refl, refl))
        | inr matched ↦ rw matched (
            Ensures-bind (N e')
              (emit-Numbered next_id result.fills a.symbol a.timestamp order.remaining_qty e')
              (λ emitted h.
                returns
                  (amend_cancel a old ∷ amend_event a order ∷ emitted.0, rest_limit order emitted.1)
                  (rest-Numbered e emitted.1 order emitted.0 h)))
      ]

  replace_order-W :
      (a : AmendOrder) (found : Option BookOrder × OrderBook) (e : MatchingEngine Gen)
      → W e (replace_order next_id a found e)
  unfolding replace_order trade_ids
  replace_order-W a (none, book) e = aborts
  replace_order-W a (some old, book) e =
      let amended = amended_order a old in
      elim (Bool-cases (not_positive amended.remaining_qty || not_positive amended.price)) [
        | inl bad ↦ rw bad (quiet next_id e _ _ (refl, refl))
        | inr good ↦
            rw good
              (settle_amended-W a old (match_order amended book) (record e { orderbook = book }))
      ]

  report_updated-W :
      (a : AmendOrder) (found : Option BookOrder) (e : MatchingEngine Gen)
      → W e (report_updated a found e)
  unfolding report_updated trade_ids
  report_updated-W a none e = aborts
  report_updated-W a (some updated) e = quiet next_id e e _ (refl, refl)

  reduce_in_place-W :
      (a : AmendOrder) (q : Option Decimal128) (e : MatchingEngine Gen)
      → W e (reduce_in_place a q e)
  unfolding reduce_in_place trade_ids
  reduce_in_place-W a none e = aborts
  reduce_in_place-W a (some q) e =
      let book = update_qty a.order_id q e.orderbook in
      elim (Bool-cases (not_positive q)) [
        | inl bad ↦ rw bad (quiet next_id e e _ (refl, refl))
        | inr good ↦
            rw good (report_updated-W a (get_order a.order_id book) (record e { orderbook = book }))
      ]

  amend_owned-W :
      (a : AmendOrder) (existing : BookOrder) (e : MatchingEngine Gen)
      → W e (amend_owned next_id a existing e)
  unfolding amend_owned trade_ids
  amend_owned-W a existing e = elim (Bool-cases (price_changed a existing || qty_up a existing)) [
    | inl moved ↦ rw moved (replace_order-W a (remove_order a.order_id e.orderbook) e)
    | inr stays ↦ elim (Bool-cases (qty_down a existing)) [
      | inl less ↦ rw (stays, less) (reduce_in_place-W a a.new_quantity e)
      | inr same ↦ rw (stays, same) (quiet next_id e e _ (refl, refl))
    ]
  ]

  amend_found-W :
      (a : AmendOrder) (found : Option BookOrder) (e : MatchingEngine Gen)
      → W e (amend_found next_id a found e)
  unfolding amend_found trade_ids
  amend_found-W a none e = quiet next_id e e _ (refl, refl)
  amend_found-W a (some existing) e = elim (Bool-cases (existing.user_id == a.user_id)) [
    | inl own ↦ rw own (amend_owned-W a existing e)
    | inr foreign ↦ rw foreign (quiet next_id e e _ (refl, refl))
  ]

  settle_triggered-W :
      (r : MatchResult × BookOrder × OrderBook) (timestamp : UnixMicros) (e : MatchingEngine Gen)
      → W e (settle_triggered next_id r timestamp e)
  unfolding settle_triggered trade_ids
  settle_triggered-W (result, order, book) timestamp e =
      let e' = record e { orderbook = book } in
      elim (Bool-cases result.rejected) [
        | inl refused ↦ rw refused (quiet next_id e e' _ (refl, refl))
        | inr matched ↦ rw matched (
            Ensures-bind (N e')
              (emit-Numbered next_id result.fills order.symbol timestamp order.remaining_qty e')
              (λ emitted h.
                returns (emitted.0, rest_limit order emitted.1)
                  (rest-Numbered e emitted.1 order emitted.0 h)))
      ]

  -- Two results, one after the other.
  both-Numbered :
      (e : MatchingEngine Gen) (r s : List Event × MatchingEngine Gen)
      → N e r
      → N r.1 s
      → N e (r.0 ++ s.0, s.1)
  both-Numbered e r s h k = rw trade_ids-append (
      Draws-append next_id e.trade_id_gen r.1.trade_id_gen s.1.trade_id_gen (trade_ids r.0)
        (trade_ids s.0) h k)

  match_triggered-W :
      (orders : List BookOrder) (timestamp : UnixMicros) (e : MatchingEngine Gen)
      → W e (match_triggered next_id orders timestamp e)
  unfolding match_triggered
  match_triggered-W [] timestamp e = quiet next_id e e [] (nil-Quiet e)
  match_triggered-W (order ∷ orders) timestamp e =
      Ensures-bind (N e) (settle_triggered-W (match_order (activate order) e.orderbook) timestamp e)
        (λ now h.
          Ensures-bind (N now.1) (match_triggered-W orders timestamp now.1)
            (λ later k. returns (now.0 ++ later.0, later.1) (both-Numbered e now later h k)))

  update_mark_price-W :
      (symbol : SymbolId) (mark index : Decimal128) (timestamp : UnixMicros)
      (e : MatchingEngine Gen)
      → W e (update_mark_price next_id symbol mark index timestamp e)
  unfolding update_mark_price trigger_and_match_stops check_stop_triggers apply_mark_index_passive
      trade_ids
  update_mark_price-W symbol mark index timestamp e =
      let checked = check_stop_triggers (apply_mark_index_passive mark index e) in
      Ensures-bind (N checked.1)
        {f = λ done. some (mark_price_update symbol mark index timestamp ∷ done.0, done.1)}
        (match_triggered-W checked.0 timestamp checked.1)
        (λ done h. returns (mark_price_update symbol mark index timestamp ∷ done.0, done.1) h)

  dispatch-W : (cmd : Command) (e : MatchingEngine Gen) → W e (dispatch next_id cmd e)
  unfolding dispatch handle_cancel_order handle_amend_order compute_funding trade_ids
  dispatch-W (new_order n) e = handle_new_order-WellNumbered next_id n e
  dispatch-W (cancel_order order_id user_id symbol timestamp) e =
      quiet next_id e _ _
        (cancel_found-Quiet order_id user_id timestamp (remove_order order_id e.orderbook) e)
  dispatch-W (amend_order a) e = amend_found-W a (get_order a.order_id e.orderbook) e
  dispatch-W (cancel_all_orders user_id symbol timestamp) e =
      quiet next_id e _ _ (handle_cancel_all-Quiet user_id symbol timestamp e)
  dispatch-W (update_mark symbol mark index timestamp) e =
      update_mark_price-W symbol mark index timestamp e
  dispatch-W (funding symbol timestamp) e =
      Ensures-then (premium e.mark_price e.index_price) (λ p. quiet next_id e _ _ (refl, refl))
  dispatch-W (admin_credit user_id amount key timestamp) e = quiet next_id e e [] (refl, refl)

  run-W : (cmds : List Command) (e : MatchingEngine Gen) → W e (run_commands next_id cmds e)
  unfolding run_commands process_command
  run-W [] e = quiet next_id e e [] (nil-Quiet e)
  run-W (cmd ∷ cmds) e = Ensures-bind (N e) (dispatch-W cmd _) (λ now h.
      Ensures-bind (N now.1) (run-W cmds now.1)
        (λ later k. returns (now.0 ++ later.0, later.1) (both-Numbered e now later h k)))

  -- Whatever the generator of trade ids is: the trades of any sequence of commands that goes
  -- through have, in the order of their events, the ids that the generator draws one after another
  -- from its state before the commands on, and its state after them is the one after as many draws
  -- as there are trades.
  pub run_commands-trade_ids :
      (cmds : List Command) (e e' : MatchingEngine Gen) (events : List Event)
      → run_commands next_id cmds e ≡ some (events, e')
      → Draws next_id e.trade_id_gen e'.trade_id_gen (trade_ids events)
  run_commands-trade_ids cmds e e' events h = Ensures-some (N e) (run-W cmds e) h
