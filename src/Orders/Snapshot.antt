-- ===== src/Orders/Snapshot.antt =====
-- Snapshots of the order service, crates/exg-order-service/src/service.rs. The values of a hash map
-- come in the order of its entries.
use exg.Prelude.{ℕ, List, [], ◌∷◌}
use exg.Prelude.Assoc.{Assoc}
use exg.Common.Error.{OrderId}
use exg.Orders.Record.{Order}
use exg.Orders.Service.{OrderService, new_service, add_order}

pub record OrderServiceSnapshot : Type 0 where
  pub orders : List Order
  pub completed_orders : List Order
  pub max_completed_history : ℕ

abbrev pub orders_in : Assoc OrderId Order → List Order
orders_in [] = []
orders_in ((id, o) ∷ m) = o ∷ orders_in m

unfoldable pub take_snapshot : OrderService → OrderServiceSnapshot
take_snapshot s = record {
  orders = orders_in s.orders;
  completed_orders = s.completed_orders;
  max_completed_history = s.max_completed_history;
}

unfoldable pub restore_orders : List Order → OrderService → OrderService
restore_orders [] s = s
restore_orders (o ∷ os) s = restore_orders os (add_order o s)

unfoldable pub restore_from_snapshot : OrderServiceSnapshot → OrderService
restore_from_snapshot snapshot =
    record (restore_orders snapshot.orders (new_service snapshot.max_completed_history)) {
      completed_orders = snapshot.completed_orders;
    }
