-- ===== src/Orders/Reachable.antt =====
-- Every state that `OrderService` of crates/exg-order-service/src/service.rs comes to.
use mathlib.Core.Option.{some-ne-none}
use exg.Prelude.{ℕ, ◌≡◌, refl, sym, some}
use exg.Prelude.Assoc.{lookup}
use exg.Common.Error.{UserId, SymbolId}
use exg.Engine.Messages.{Command, Event}
use exg.Orders.Service.{
  OrderService, get_order, ids_of, new_service, create_order, cancel_user_symbol_orders,
}
use exg.Orders.Events.{apply_event}
use exg.Orders.Consistent.{Consistent, create_order-Consistent}
use exg.Orders.Applying.{Attributed, apply_event-Consistent}
use exg.Orders.Canceling.{cancel_user_symbol_orders-Consistent}

-- The calls that change the service. A rejection names the user of its order.
pub data Step (s : OrderService) : OrderService → Type 0 where
  created : (c : Command) → Step s (create_order c s).1
  canceled_all :
      (user_id : UserId) (symbol : SymbolId) → Step s (cancel_user_symbol_orders user_id symbol s).1
  applied :
      {s' : OrderService} (ev : Event) → Attributed ev s → apply_event ev s ≡ some s' → Step s s'

-- The states that a new service comes to.
pub data Reach (max : ℕ) : OrderService → Type 0 where
  created_new : Reach max (new_service max)
  then_step : {s s' : OrderService} → Reach max s → Step s s' → Reach max s'

Step-Consistent : {s s' : OrderService} → Step s s' → Consistent s → Consistent s'
Step-Consistent {s} (created c) h = create_order-Consistent c s h
Step-Consistent {s} (canceled_all user_id symbol) h =
    cancel_user_symbol_orders-Consistent user_id symbol s h
Step-Consistent {s} {s'} (applied ev own done) h = apply_event-Consistent ev s s' h own done

pub new_service-Consistent : (max : ℕ) → Consistent (new_service max)
unfolding new_service get_order ids_of lookup
new_service-Consistent max = (
  record {
    distinct = tt;
    keyed = λ id o e. absurd (some-ne-none o (sym e));
    listed = λ user_id id. refl;
    clients = λ user_id cid id e. absurd (some-ne-none id (sym e));
  },
  λ id o e. absurd (some-ne-none o (sym e)),
)

-- In every state that a new service comes to by new orders, by canceling the orders of a user in
-- a symbol and by events, of which a rejection names the user of its order: each key of the map
-- of active orders stands once, each active order is kept under its id and is not terminal, the
-- list of each user names each active order of the user once and no other, and each entry of the
-- client ids names an active order of the user with this client id.
pub Reach-Consistent : (max : ℕ) (s : OrderService) → Reach max s → Consistent s
Reach-Consistent max s created_new = new_service-Consistent max
Reach-Consistent max s (then_step r step) = Step-Consistent step (Reach-Consistent max _ r)
