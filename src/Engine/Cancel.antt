-- ===== src/Engine/Cancel.antt =====
-- `handle_cancel_order` and `handle_cancel_all` of crates/exg-matching-engine/src/engine.rs.
use exg.Prelude.{
  ℕ, zero, suc, ◌==◌, ◌&&◌, Bool, Option, none, some, List, [], ◌∷◌, ◌++◌, map, if◌then◌else◌,
}
use exg.Prelude.Lists.{length}
use exg.Common.Error.{OrderId, UserId, SymbolId, UnixMicros}
use exg.Matching.Book.{BookOrder, OrderBook, insert_order, remove_order, cancel_all_user_orders}
use exg.Engine.Messages.{Event, canceled, rejected, order_not_found}
use exg.Engine.State.{MatchingEngine}

-- `position` and `remove`: the first order with an id, and the others in their order.
unfoldable pub take_stop : OrderId → List BookOrder → Option BookOrder × List BookOrder
take_stop order_id [] = (none, [])
take_stop order_id (o ∷ os) =
    let rest = take_stop order_id os in
    if o.order_id == order_id then (some o, os) else (rest.0, o ∷ rest.1)

abbrev pub not_found : OrderId → UserId → UnixMicros → List Event
not_found order_id user_id timestamp = rejected order_id user_id order_not_found timestamp ∷ []

abbrev pub cancel_event : OrderId → UserId → UnixMicros → BookOrder → List Event
cancel_event order_id user_id timestamp order =
    canceled order_id user_id order.symbol order.remaining_qty timestamp ∷ []

-- The last element, and the list that `pop` leaves.
unfoldable pub split_last : BookOrder → List BookOrder → List BookOrder × BookOrder
split_last o [] = ([], o)
split_last o (p ∷ ps) = let rest = split_last p ps in (o ∷ rest.0, rest.1)

-- The list after its head was swapped with its last element and popped.
unfoldable pub swap_out : List BookOrder → List BookOrder
unfolding split_last
swap_out [] = []
swap_out (p ∷ ps) = let split = split_last p ps in split.1 ∷ split.0

-- The loop with `swap_remove`: the orders that pass the test, in the order in which they are taken,
-- and the others. The fuel is the number of orders that are left to look at.
unfoldable pub extract : ℕ → (BookOrder → Bool) → List BookOrder → List BookOrder × List BookOrder
unfolding swap_out
extract zero test os = ([], os)
extract (suc fuel) test [] = ([], [])
extract (suc fuel) test (o ∷ os) =
    let taken = extract fuel test (swap_out os) in
    let kept = extract fuel test os in
    if test o then (o ∷ taken.0, taken.1) else (kept.0, o ∷ kept.1)

unfoldable pub swap_extract : (BookOrder → Bool) → List BookOrder → List BookOrder × List BookOrder
unfolding extract
swap_extract test os = extract (length os) test os

abbrev pub is_stop_of : UserId → SymbolId → BookOrder → Bool
is_stop_of user_id symbol order = order.user_id == user_id && order.symbol == symbol

abbrev pub cancel_all_event : UserId → SymbolId → UnixMicros → BookOrder → Event
cancel_all_event user_id symbol timestamp order =
    canceled order.order_id user_id symbol order.remaining_qty timestamp

module _ {Gen : Type 0} where
  -- An order that was taken off the book goes back if it is another user's.
  unfoldable pub cancel_resting :
      OrderId
      → UserId
      → UnixMicros
      → BookOrder
      → MatchingEngine Gen
      → List Event × MatchingEngine Gen
  cancel_resting order_id user_id timestamp order e =
      if order.user_id == user_id then (cancel_event order_id user_id timestamp order, e) else (
        not_found order_id user_id timestamp,
        record e { orderbook = insert_order order e.orderbook },
      )

  unfoldable pub cancel_stop :
      OrderId
      → UserId
      → UnixMicros
      → Option BookOrder × List BookOrder
      → MatchingEngine Gen
      → List Event × MatchingEngine Gen
  cancel_stop order_id user_id timestamp (none, others) e =
      (not_found order_id user_id timestamp, e)
  cancel_stop order_id user_id timestamp (some order, others) e =
      if order.user_id == user_id
      then (cancel_event order_id user_id timestamp order, record e { stop_orders = others })
      else (not_found order_id user_id timestamp, record e { stop_orders = others ++ (order ∷ []) })

  unfoldable pub cancel_found :
      OrderId
      → UserId
      → UnixMicros
      → Option BookOrder × OrderBook
      → MatchingEngine Gen
      → List Event × MatchingEngine Gen
  unfolding cancel_resting cancel_stop
  cancel_found order_id user_id timestamp (some order, book) e =
      cancel_resting order_id user_id timestamp order (record e { orderbook = book })
  cancel_found order_id user_id timestamp (none, book) e =
      cancel_stop order_id user_id timestamp (take_stop order_id e.stop_orders)
        (record e { orderbook = book })

  unfoldable pub handle_cancel_order :
      OrderId → UserId → UnixMicros → MatchingEngine Gen → List Event × MatchingEngine Gen
  unfolding cancel_found
  handle_cancel_order order_id user_id timestamp e =
      cancel_found order_id user_id timestamp (remove_order order_id e.orderbook) e

  unfoldable pub handle_cancel_all :
      UserId → SymbolId → UnixMicros → MatchingEngine Gen → List Event × MatchingEngine Gen
  unfolding swap_extract
  handle_cancel_all user_id symbol timestamp e =
      let book = cancel_all_user_orders user_id e.orderbook in
      let stops = swap_extract (is_stop_of user_id symbol) e.stop_orders in
      (
        map (cancel_all_event user_id symbol timestamp) (book.0 ++ stops.0),
        record e { orderbook = book.1; stop_orders = stops.1 },
      )
