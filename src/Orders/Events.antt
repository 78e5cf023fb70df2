-- ===== src/Orders/Events.antt =====
-- The events of the engine in the order service, crates/exg-order-service/src/service.rs.
use exg.Prelude.{
  ℕ, ◌==◌, ◌||◌, not, Bool, true, false, Option, none, some, List, [], ◌∷◌, ◌++◌, if◌then◌else◌,
}
use exg.Decimal.{zero_dec, add, is_zero}
use exg.Decimal.Panic.{◌>>=◌, mul, div}
use exg.Common.Error.{OrderId, UserId, SymbolId, UnixMicros}
use exg.Common.Types.{
  buy, limit, gtc, cross, OrderStatus, fresh, partially_filled, pending_trigger, is_terminal,
  is_conditional,
}
use exg.Common.Types as Types
use exg.Engine.Messages.{TradeId, Accepted, Filled, Event, accepted, rejected, canceled, filled}
use exg.Orders.Record.{FillRecord, Order}
use exg.Orders.Service.{
  OrderService, get_order, set_order, push_completed, move_to_completed, add_order,
}

-- An order of which only the event is known.
abbrev pub minimal_order : OrderId → UserId → SymbolId → Option ℕ → OrderStatus → UnixMicros → Order
minimal_order order_id user_id symbol client_order_id status timestamp = record {
  order_id = order_id;
  user_id = user_id;
  symbol = symbol;
  client_order_id = client_order_id;
  side = buy;
  order_type = limit;
  time_in_force = gtc;
  price = none;
  stop_price = none;
  original_qty = zero_dec;
  executed_qty = zero_dec;
  remaining_qty = zero_dec;
  status = status;
  margin_mode = cross;
  leverage = none;
  reduce_only = false;
  avg_fill_price = zero_dec;
  total_filled_quote = zero_dec;
  commission = zero_dec;
  created_at = timestamp;
  updated_at = timestamp;
  fills = [];
}

-- `PartialEq` with `OrderStatus::New`
abbrev pub is_new : OrderStatus → Bool
is_new fresh = true
is_new _ = false

abbrev pub no_fills : List FillRecord → Bool
no_fills [] = true
no_fills (f ∷ fs) = false

abbrev pub accept_known : Accepted → Option Order → OrderService → OrderService
accept_known a none s =
    add_order (minimal_order a.order_id a.user_id a.symbol a.client_order_id fresh a.timestamp) s
accept_known a (some o) s =
    if not (is_new o.status) || not (no_fills o.fills)
    then s
    else set_order a.order_id
        (record o {
          status = if is_conditional o.order_type then pending_trigger else o.status;
          updated_at = a.timestamp;
        })
        s

unfoldable pub handle_order_accepted : Accepted → OrderService → OrderService
handle_order_accepted a s = accept_known a (get_order a.order_id s) s

unfoldable pub in_completed : OrderId → List Order → Bool
in_completed order_id [] = false
in_completed order_id (o ∷ os) =
    let rest = in_completed order_id os in if o.order_id == order_id then true else rest

abbrev pub reject_known : OrderId → UserId → UnixMicros → Option Order → OrderService → OrderService
reject_known order_id user_id timestamp none s =
    if in_completed order_id s.completed_orders
    then s
    else push_completed (minimal_order order_id user_id 0 none Types.rejected timestamp) s
reject_known order_id user_id timestamp (some o) s =
    if is_terminal o.status
    then s
    else move_to_completed order_id user_id
        (set_order order_id (record o { status = Types.rejected; updated_at = timestamp }) s)

unfoldable pub handle_order_rejected : OrderId → UserId → UnixMicros → OrderService → OrderService
handle_order_rejected order_id user_id timestamp s =
    reject_known order_id user_id timestamp (get_order order_id s) s

abbrev pub cancel_known : OrderId → UnixMicros → Option Order → OrderService → OrderService
cancel_known order_id timestamp none s = s
cancel_known order_id timestamp (some o) s =
    if is_terminal o.status
    then s
    else move_to_completed order_id o.user_id
        (set_order order_id (record o { status = Types.canceled; updated_at = timestamp }) s)

unfoldable pub handle_order_canceled : OrderId → UnixMicros → OrderService → OrderService
handle_order_canceled order_id timestamp s =
    cancel_known order_id timestamp (get_order order_id s) s

unfoldable pub has_trade : TradeId → List FillRecord → Bool
has_trade trade_id [] = false
has_trade trade_id (f ∷ fs) =
    let rest = has_trade trade_id fs in if f.trade_id == trade_id then true else rest

abbrev pub fill_record : Filled → FillRecord
fill_record f = record {
  trade_id = f.trade_id;
  price = f.fill_price;
  qty = f.fill_qty;
  is_maker = f.is_maker;
  commission = zero_dec;
  timestamp = f.timestamp;
}

-- The order with the fill; the division and the product may abort.
unfoldable pub filled_order : Filled → Order → Option Order
filled_order f o = do
  quote ← mul f.fill_price f.fill_qty
  let executed = add o.executed_qty f.fill_qty
  let total = add o.total_filled_quote quote
  average ← if is_zero executed then some o.avg_fill_price else div total executed
  some (record o {
    fills = o.fills ++ (fill_record f ∷ []);
    executed_qty = executed;
    remaining_qty = f.remaining_qty;
    total_filled_quote = total;
    avg_fill_price = average;
    updated_at = f.timestamp;
    status = if is_zero f.remaining_qty then Types.filled else partially_filled;
  })

unfoldable pub settle_fill : Filled → OrderService → Order → OrderService
settle_fill f s o =
    if is_zero f.remaining_qty
    then move_to_completed f.order_id o.user_id (set_order f.order_id o s)
    else set_order f.order_id o s

abbrev pub fill_known : Filled → Option Order → OrderService → Option OrderService
fill_known f none s = some s
fill_known f (some o) s =
    if has_trade f.trade_id o.fills || is_terminal o.status
    then some s
    else filled_order f o >>= λ o'. some (settle_fill f s o')

unfoldable pub handle_order_filled : Filled → OrderService → Option OrderService
handle_order_filled f s = fill_known f (get_order f.order_id s) s

unfoldable pub apply_event : Event → OrderService → Option OrderService
apply_event (accepted a) s = some (handle_order_accepted a s)
apply_event (rejected order_id user_id reason timestamp) s =
    some (handle_order_rejected order_id user_id timestamp s)
apply_event (filled f) s = handle_order_filled f s
apply_event (canceled order_id user_id symbol remaining timestamp) s =
    some (handle_order_canceled order_id timestamp s)
apply_event _ s = some s
