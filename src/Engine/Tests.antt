-- ===== src/Engine/Tests.antt =====
-- The theorems on crates/exg-matching-engine/src/engine.rs and replay.rs, on a small engine whose
-- trade ids are 1, 2, 3 and so on.
use native.Mathlib.Decide.{ℕ_discrete}
use mathlib.Core.Option.{some-injective}
use exg.Prelude.{
  ℕ, ◌+◌, ◌≡◌, ◌<◌, ◌⊎◌, ◌*ℤ◌, ◌-ℤ◌, ◌∙◌, refl, sym, ap, arith, false, none, some, Option, pos, ◌∷◌,
  [], List, ◌||◌,
}
use exg.Prelude.Lists.{AllOf}
use exg.Prelude.Assoc.{or_else, lookup, upsert}
use exg.Decimal.{
  Decimal128, zero_dec, one_dec, is_zero, is_negative, is_positive, lt_dec, le_dec, eq_dec, sub,
  min, wrap,
}
use exg.Decimal.Panic.{mul}
use exg.Decimal.Wide.{checked_mul, tdiv}
use exg.Common.Error.{OrderId, UserId}
use exg.Common.Types.{buy, sell, OrderType, TimeInForce, cross, is_limit, is_conditional}
use exg.Risk.Types.{SymbolConfig}
use exg.Matching.Book.{
  BookOrder, OrderBook, get_order, remove_order, update_qty, change_levels, better, resting,
}
use exg.Matching.Matcher.{
  match_order, execute, match_against_asks, match_against_bids, match_prices, match_ids,
  match_maker, fill_maker, settle_maker, ids_at, fok_available,
}
use exg.Engine.Trades.{make_trade, emit_fill_events}
use exg.Engine.Entry.{build_order, effective_price, check_visible, place_rest, refill, reject}
use exg.Engine.Commands.{process_command}
use exg.Engine.Messages.{TradeId, NewOrder, AmendOrder, Command, Event, new_order, update_mark}
use exg.Engine.State.{MatchingEngine, Outcome}
use exg.Engine.Accept.{accept_order, handle_new_order}
use exg.Engine.Cancel.{handle_cancel_order}
use exg.Engine.Amend.{handle_amend_order, price_changed, qty_up, qty_down}
use exg.Engine.Stops.{triggers, activate_as, update_mark_price}
use exg.Engine.Expiry.{check_expirations}
use exg.Engine.Triggers.{Triggering, update_mark_price-triggers}
use exg.Engine.Sweeping.{IsDue, check_expirations_lem}
use exg.Engine.Refusals.{Decided, handle_new_order-refusal}
use exg.Engine.Cancels.{Keyed, CancelDone, handle_cancel_order-done}
use exg.Engine.Replays.{Unreplayable, handle_amend_order-replay}
use exg.Engine.CancelReplays.{Replays, handle_cancel_order-replay}
use exg.Engine.Numbering.{trade_ids, Draws}
use exg.Engine.Runs.{run_commands, run_commands-trade_ids}

abbrev config : SymbolConfig
config = record {
  symbol = 1;
  tick_size = pos 1;
  lot_size = pos 1;
  min_notional = zero_dec;
  max_leverage = one_dec;
  maker_fee = zero_dec;
  taker_fee = zero_dec;
  margin_tiers = [];
}

abbrev resting_order : OrderId → UserId → OrderType → Option Decimal128 → BookOrder
resting_order order_id user_id order_type stop_price = record {
  order_id = order_id;
  user_id = user_id;
  symbol = 1;
  side = sell;
  price = pos 100;
  remaining_qty = pos 5;
  original_qty = pos 5;
  order_type = order_type;
  time_in_force = TimeInForce.gtc;
  is_reduce_only = false;
  timestamp = 0;
  visible_qty = none;
  hidden_qty = zero_dec;
  trailing_delta = none;
  trailing_peak_price = none;
  expire_time = none;
  client_order_id = none;
  stop_price = stop_price;
}

-- an ask of 5 at 100, and a stop at 90
abbrev book : OrderBook
book = record {
  symbol = 1;
  bids = [];
  asks = record { price = pos 100; total_qty = pos 5; orders = 1 ∷ [] } ∷ [];
  orders = (1, resting_order 1 11 OrderType.limit none) ∷ [];
  user_orders = (11, 1 ∷ []) ∷ [];
}

abbrev engine : MatchingEngine ℕ
engine = record {
  orderbook = book;
  symbol_config = config;
  mark_price = pos 95;
  index_price = pos 95;
  stop_orders = resting_order 2 12 OrderType.stop_limit (some (pos 90)) ∷ [];
  expiry_heap = (50, 1) ∷ (70, 3) ∷ [];
  trade_id_gen = 1;
  sequence = 0;
  interest_rate = zero_dec;
  last_funding_rate = zero_dec;
}

abbrev next_id : ℕ → TradeId × ℕ
next_id n = (n, n + 1)

-- a bid of 5 at 100
abbrev bid : Decimal128 → NewOrder
bid quantity = record {
  order_id = 9;
  user_id = 20;
  symbol = 1;
  side = buy;
  order_type = OrderType.limit;
  time_in_force = TimeInForce.gtc;
  price = some (pos 100);
  quantity = quantity;
  stop_price = none;
  trailing_delta = none;
  visible_quantity = none;
  reduce_only = false;
  margin_mode = cross;
  leverage = none;
  client_order_id = none;
  timestamp = 60;
}

-- What a call gives, where it does not abort.
abbrev result : Outcome ℕ → List Event × MatchingEngine ℕ
result m = or_else m ([], engine)

-- the quantity of the ask goes down to 3
abbrev amendment : AmendOrder
amendment = record {
  order_id = 1;
  user_id = 11;
  symbol = 1;
  new_price = none;
  new_quantity = some (pos 3);
  timestamp = 60;
}

book_ask : get_order 1 book ≡ some (resting_order 1 11 OrderType.limit none)
unfolding get_order lookup ℕ_discrete
book_ask = refl

amendment_stays :
    (price_changed amendment (resting_order 1 11 OrderType.limit none)
      || qty_up amendment (resting_order 1 11 OrderType.limit none))
    ≡ false
unfolding price_changed qty_up lt_dec
amendment_stays = refl

check_expirations_lem_example :
    let after = (check_expirations 60 engine).1 in
    AllOf (λ x. 60 < x.0) after.expiry_heap
    × (((get_order 1 after.orderbook ≡ none) × IsDue 60 1 engine.expiry_heap)
        ⊎ ((get_order 1 after.orderbook ≡ get_order 1 book) × (¬ IsDue 60 1 engine.expiry_heap)))
check_expirations_lem_example = check_expirations_lem 60 engine 1 ((omega arith, tt), (tt, tt))

book-Keyed : Keyed book
unfolding get_order lookup
book-Keyed i o h =
    (elim (ℕ_discrete 1 i)
        as (λ t.
          ◌≡◌ {A = Option BookOrder}
            (elim t [ yes e ↦ some (resting_order 1 11 OrderType.limit none) | no n ↦ none ])
            (some o)
          → o.order_id ≡ i) [
            | yes e ↦ λ q. sym (ap (λ (x : BookOrder). x.order_id) (some-injective _ _ q)) ∙ e
            | no n ↦ λ q. cc
          ])
      h

handle_cancel_order-done_example : CancelDone 1 11 60 engine (handle_cancel_order 1 11 60 engine)
handle_cancel_order-done_example = handle_cancel_order-done 1 11 60 engine book-Keyed

handle_cancel_order-replay_example : Replays engine [] (handle_cancel_order 2 12 60 engine)
handle_cancel_order-replay_example = handle_cancel_order-replay engine [] 2 12 60 book-Keyed

refused_done :
    handle_new_order next_id (bid zero_dec) engine
    ≡ some (result (handle_new_order next_id (bid zero_dec) engine))
unfolding handle_new_order is_zero reject
refused_done = refl

marked_done :
    update_mark_price next_id 1 (pos 89) (pos 89) 60 engine
    ≡ some (result (update_mark_price next_id 1 (pos 89) (pos 89) 60 engine))
unfolding update_mark_price triggers le_dec match_order activate_as emit_fill_events execute
    match_against_bids match_prices
marked_done = refl

abbrev run : List Command
run = new_order (bid (pos 5)) ∷ update_mark 1 (pos 89) (pos 89) 60 ∷ []

run_done : run_commands next_id run engine ≡ some (result (run_commands next_id run engine))
unfolding run_commands process_command handle_new_order effective_price check_visible accept_order
    match_order execute match_against_asks match_against_bids match_prices match_ids match_maker
    fill_maker settle_maker remove_order emit_fill_events make_trade mul checked_mul place_rest
    refill update_mark_price triggers activate_as is_zero is_negative is_positive lt_dec le_dec
    eq_dec sub min get_order lookup ℕ_discrete is_limit is_conditional better resting ids_at ◌*ℤ◌
    ◌-ℤ◌ wrap tdiv fok_available build_order change_levels
run_done = refl

amended_done :
    handle_amend_order next_id amendment engine
    ≡ some (result (handle_amend_order next_id amendment engine))
unfolding handle_amend_order price_changed qty_up qty_down lt_dec update_qty is_zero is_negative
    get_order lookup ℕ_discrete upsert change_levels
amended_done = refl

handle_new_order-refusal_example :
    Decided (bid zero_dec) engine (result (handle_new_order next_id (bid zero_dec) engine))
handle_new_order-refusal_example =
    handle_new_order-refusal next_id (bid zero_dec) engine
      (result (handle_new_order next_id (bid zero_dec) engine)).1
      (result (handle_new_order next_id (bid zero_dec) engine)).0 refused_done

update_mark_price-triggers_example :
    Triggering next_id 1
      (pos 89)
      (pos 89)
      60
      engine
      (result (update_mark_price next_id 1 (pos 89) (pos 89) 60 engine)).1
      (result (update_mark_price next_id 1 (pos 89) (pos 89) 60 engine)).0
update_mark_price-triggers_example =
    update_mark_price-triggers next_id 1 (pos 89) (pos 89) 60 engine
      (result (update_mark_price next_id 1 (pos 89) (pos 89) 60 engine)).1
      (result (update_mark_price next_id 1 (pos 89) (pos 89) 60 engine)).0 marked_done

run_commands-trade_ids_example :
    Draws next_id engine.trade_id_gen
      (result (run_commands next_id run engine)).1.trade_id_gen
      (trade_ids (result (run_commands next_id run engine)).0)
run_commands-trade_ids_example =
    run_commands-trade_ids next_id run engine (result (run_commands next_id run engine)).1
      (result (run_commands next_id run engine)).0 run_done

handle_amend_order-replay_example :
    Unreplayable amendment engine [] (result (handle_amend_order next_id amendment engine))
handle_amend_order-replay_example =
    handle_amend_order-replay next_id amendment engine
      (result (handle_amend_order next_id amendment engine)).1
      (result (handle_amend_order next_id amendment engine)).0
      (resting_order 1 11 OrderType.limit none) [] book_ask refl amendment_stays amended_done
