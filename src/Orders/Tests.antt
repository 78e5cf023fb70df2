-- ===== src/Orders/Tests.antt =====
-- The theorems on crates/exg-order-service, on a service with two orders of one user.
use exg.Prelude.{◌≡◌, ◌*ℤ◌, ◌+ℤ◌, refl, false, true, none, some, Option, pos}
use native.Mathlib.Decide.{ℕ_discrete}
use exg.Prelude.Assoc.{lookup, upsert}
use exg.Decimal.{is_zero, add, wrap}
use exg.Decimal.Panic.{mul, div}
use exg.Decimal.Wide.{checked_mul, checked_div, tdiv}
use exg.Common.Error.{OrderId, SymbolId}
use exg.Common.Types.{buy, limit, gtc, cross, is_terminal}
use exg.Engine.Messages.{NewOrder, Filled, new_order, filled}
use exg.Orders.Service.{
  OrderService, new_service, create_order, get_order, add_order, set_order, ClientKey-discrete,
  cancel_user_symbol_orders,
}
use exg.Orders.Events.{apply_event, handle_order_filled, has_trade, filled_order, settle_fill}
use exg.Orders.Index.{Indexed}
use exg.Orders.Consistent.{Consistent}
use exg.Orders.Repeats.{apply_event_twice}
use exg.Orders.Canceling.{left_of, cancel_user_symbol_orders-left_of}
use exg.Orders.Snapshot.{take_snapshot, restore_from_snapshot}
use exg.Orders.Restoring.{Kept, restore_from_snapshot-take_snapshot}
use exg.Orders.Everywhere.{Everywhere}
use exg.Orders.Accounting.{Accounted}
use exg.Orders.Accounts.{Reach-Accounted}
use exg.Orders.Reachable.{Reach, created_new, then_step, created, applied, Reach-Consistent}

abbrev order : OrderId → SymbolId → NewOrder
order order_id symbol = record {
  order_id = order_id;
  user_id = 1;
  symbol = symbol;
  side = buy;
  order_type = limit;
  time_in_force = gtc;
  price = some (pos 100);
  quantity = pos 5;
  stop_price = none;
  trailing_delta = none;
  visible_quantity = none;
  reduce_only = false;
  margin_mode = cross;
  leverage = none;
  client_order_id = some 40;
  timestamp = 7;
}

abbrev two_orders : OrderService
two_orders =
    (create_order (new_order (order 12 2))
      (create_order (new_order (order 11 1)) (new_service 3)).1).1

two_orders-Reach : Reach 3 two_orders
two_orders-Reach =
    then_step (then_step created_new (created (new_order (order 11 1))))
      (created (new_order (order 12 2)))

abbrev fill : Filled
fill = record {
  order_id = 11;
  trade_id = 90;
  user_id = 1;
  symbol = 1;
  side = buy;
  fill_price = pos 100;
  fill_qty = pos 2;
  is_maker = true;
  remaining_qty = pos 3;
  timestamp = 9;
}

abbrev result : Option OrderService → OrderService
result none = two_orders
result (some s) = s

abbrev after_fill : OrderService
after_fill = result (apply_event (filled fill) two_orders)

fill_applied : apply_event (filled fill) two_orders ≡ some after_fill
unfolding apply_event create_order handle_order_filled get_order new_service add_order set_order
    ℕ_discrete has_trade is_terminal filled_order mul checked_mul ◌*ℤ◌ ◌+ℤ◌ is_zero add div
    checked_div tdiv wrap settle_fill lookup upsert ClientKey-discrete
fill_applied = refl

apply_event_twice_example : apply_event (filled fill) after_fill ≡ some after_fill
apply_event_twice_example =
    apply_event_twice (filled fill) two_orders after_fill
      (Indexed.keyed (Reach-Consistent 3 two_orders two_orders-Reach).0) fill_applied

Reach-Consistent_example : Consistent after_fill
Reach-Consistent_example =
    Reach-Consistent 3 after_fill
      (then_step two_orders-Reach (applied (filled fill) tt fill_applied))

cancel_user_symbol_orders-left_of_example :
    get_order 11 (cancel_user_symbol_orders 1 1 two_orders).1
    ≡ left_of 1 1 (get_order 11 two_orders)
cancel_user_symbol_orders-left_of_example =
    cancel_user_symbol_orders-left_of 1 1 two_orders 11
      (Reach-Consistent 3 two_orders two_orders-Reach)

restore_from_snapshot-take_snapshot_example :
    Kept two_orders (restore_from_snapshot (take_snapshot two_orders)) 11
restore_from_snapshot-take_snapshot_example =
    restore_from_snapshot-take_snapshot 3 two_orders 11 two_orders-Reach

Reach-Accounted_example : Everywhere Accounted after_fill
Reach-Accounted_example =
    Reach-Accounted 3 after_fill
      (then_step two_orders-Reach (applied (filled fill) tt fill_applied))
