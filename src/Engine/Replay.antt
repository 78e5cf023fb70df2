-- ===== src/Engine/Replay.antt =====
-- Replay of the recorded events, crates/exg-matching-engine/src/replay.rs.
use exg.Prelude.{
  ◌==◌, Bool, true, false, Option, none, some, List, [], ◌∷◌, ◌++◌, not, ◌&&◌, if◌then◌else◌,
}
use exg.Prelude.Assoc.{or_else}
use exg.Decimal.{Decimal128, zero_dec, sub, is_zero, lt_dec}
use exg.Common.Error.{OrderId}
use exg.Common.Types.{is_conditional, is_limit}
use exg.Matching.Book.{BookOrder, OrderBook, get_order, insert_order, remove_order, update_qty}
use exg.Engine.Messages.{
  Accepted, Filled, Event, accepted, rejected, canceled, filled, traded, mark_price_update,
  funding_rate_update, liquidation_order, admin_credited, realized_pnl, funding_settled,
}
use exg.Engine.State.{MatchingEngine}
use exg.Engine.Entry.{expire_at, is_some, watch_expiry}
use exg.Engine.Cancel.{take_stop, swap_out}
use exg.Engine.Stops.{activate, apply_mark_index_passive}

pub data ApplyError : Type 0 where
  unknown_order duplicate_order : OrderId → ApplyError
  over_fill : Decimal128 → Decimal128 → ApplyError
  unexpected_variant : ApplyError

-- The engine, and the ids seen so far.
pub record Replaying (Gen : Type 0) : Type 0 where
  pub engine : MatchingEngine Gen
  pub seen : List OrderId

-- An error ends the replay, and the server does not start.
pub data Applied (Gen : Type 0) : Type 0 where
  ok : Replaying Gen → Applied Gen
  failed : ApplyError → Applied Gen

unfoldable pub contains : OrderId → List OrderId → Bool
contains order_id [] = false
contains order_id (id ∷ ids) =
    let rest = contains order_id ids in if id == order_id then true else rest

abbrev pub hidden_of : Option Decimal128 → Decimal128 → Decimal128
hidden_of none quantity = zero_dec
hidden_of (some vis) quantity = sub quantity vis

-- The order of an `OrderAccepted`.
unfoldable pub rebuild_order : Accepted → BookOrder
rebuild_order a = record {
  order_id = a.order_id;
  user_id = a.user_id;
  symbol = a.symbol;
  side = a.side;
  price = a.price;
  remaining_qty = or_else a.visible_quantity a.quantity;
  original_qty = a.quantity;
  order_type = a.order_type;
  time_in_force = a.time_in_force;
  is_reduce_only = a.reduce_only;
  timestamp = a.timestamp;
  visible_qty = a.visible_quantity;
  hidden_qty = hidden_of a.visible_quantity a.quantity;
  trailing_delta = a.trailing_delta;
  trailing_peak_price = a.trailing_peak_price;
  expire_time = expire_at a.time_in_force a.timestamp;
  client_order_id = a.client_order_id;
  stop_price = a.stop_price;
}

-- `position` and `swap_remove`: the first order with an id, and the list in which the last order
-- has taken its place.
unfoldable pub swap_take : OrderId → List BookOrder → Option BookOrder × List BookOrder
unfolding swap_out
swap_take order_id [] = (none, [])
swap_take order_id (o ∷ os) =
    let rest = swap_take order_id os in
    if o.order_id == order_id then (some o, swap_out os) else (rest.0, o ∷ rest.1)

module _ {Gen : Type 0} where
  unfoldable pub restore_accepted : BookOrder → MatchingEngine Gen → MatchingEngine Gen
  restore_accepted order e =
      if is_conditional order.order_type
      then watch_expiry order.expire_time order
          (record e { stop_orders = e.stop_orders ++ (order ∷ []) })
      else watch_expiry order.expire_time order
          (record e { orderbook = insert_order order e.orderbook })

  unfoldable pub apply_accepted : Accepted → Replaying Gen → Applied Gen
  unfolding rebuild_order restore_accepted
  apply_accepted a r =
      if is_some (get_order a.order_id r.engine.orderbook)
      then failed (duplicate_order a.order_id)
      else ok (record {
        engine = restore_accepted (rebuild_order a) r.engine;
        seen = a.order_id ∷ r.seen;
      })

  unfoldable pub drop_stop :
      OrderId → Option BookOrder × List BookOrder → Replaying Gen → Applied Gen
  drop_stop order_id (none, others) r = failed (unknown_order order_id)
  drop_stop order_id (some order, others) r =
      ok (record r { engine = record r.engine { stop_orders = others } })

  unfoldable pub drop_found : OrderId → Option BookOrder × OrderBook → Replaying Gen → Applied Gen
  unfolding drop_stop
  drop_found order_id (some order, book) r =
      ok (record r { engine = record r.engine { orderbook = book } })
  drop_found order_id (none, book) r =
      drop_stop order_id (take_stop order_id r.engine.stop_orders) r

  unfoldable pub apply_canceled : OrderId → Replaying Gen → Applied Gen
  unfolding drop_found
  apply_canceled order_id r = drop_found order_id (remove_order order_id r.engine.orderbook) r

  -- A fill of an order on the book.
  unfoldable pub fill_resting : Filled → BookOrder → Replaying Gen → Applied Gen
  fill_resting f existing r =
      if lt_dec existing.remaining_qty f.fill_qty
      then failed (over_fill f.fill_qty existing.remaining_qty)
      else if is_zero f.remaining_qty
      then ok (record r {
        engine = record r.engine { orderbook = (remove_order f.order_id r.engine.orderbook).1 };
      })
      else ok (record r {
        engine = record r.engine {
          orderbook = update_qty f.order_id f.remaining_qty r.engine.orderbook;
        };
      })

  -- The rest of an order that was promoted rests if it is a limit order.
  unfoldable pub promote_rest : Filled → BookOrder → MatchingEngine Gen → MatchingEngine Gen
  promote_rest f order e =
      if not (is_zero f.remaining_qty) && is_limit order.order_type
      then record e {
        orderbook = insert_order (record order { remaining_qty = f.remaining_qty }) e.orderbook;
      }
      else e

  -- A fill of an order that waited for its trigger, or of one that is gone.
  unfoldable pub fill_stop :
      Filled → Option BookOrder × List BookOrder → Replaying Gen → Applied Gen
  unfolding promote_rest contains
  fill_stop f (none, others) r =
      if contains f.order_id r.seen then ok r else failed (unknown_order f.order_id)
  fill_stop f (some order, others) r =
      if lt_dec order.remaining_qty f.fill_qty
      then failed (over_fill f.fill_qty order.remaining_qty)
      else ok (record r {
        engine = promote_rest f (activate order) (record r.engine { stop_orders = others });
      })

  unfoldable pub fill_found : Filled → Option BookOrder → Replaying Gen → Applied Gen
  unfolding fill_resting fill_stop swap_take
  fill_found f (some existing) r = fill_resting f existing r
  fill_found f none r = fill_stop f (swap_take f.order_id r.engine.stop_orders) r

  unfoldable pub apply_event : Event → Replaying Gen → Applied Gen
  unfolding apply_accepted apply_canceled fill_found
  apply_event (accepted a) r = apply_accepted a r
  apply_event (rejected order_id user_id reason timestamp) r = ok r
  apply_event (canceled order_id user_id symbol qty timestamp) r = apply_canceled order_id r
  apply_event (filled f) r = fill_found f (get_order f.order_id r.engine.orderbook) r
  apply_event (traded trade) r = ok r
  apply_event (mark_price_update symbol mark index timestamp) r =
      ok (record r { engine = apply_mark_index_passive mark index r.engine })
  apply_event (funding_rate_update symbol rate timestamp) r =
      ok (record r { engine = record r.engine { last_funding_rate = rate } })
  apply_event (liquidation_order user_id symbol side qty timestamp) r = failed unexpected_variant
  apply_event (admin_credited user_id amount key timestamp) r = ok r
  apply_event (realized_pnl user_id symbol amount timestamp) r = ok r
  apply_event (funding_settled user_id symbol period amount timestamp) r = ok r

  abbrev pub and_then : Applied Gen → (Replaying Gen → Applied Gen) → Applied Gen
  and_then (ok r) f = f r
  and_then (failed err) f = failed err

  -- The loop over the log; the first error ends it.
  unfoldable pub apply_all : List Event → Replaying Gen → Applied Gen
  unfolding apply_event
  apply_all [] r = ok r
  apply_all (ev ∷ evs) r = and_then (apply_event ev r) (apply_all evs)
