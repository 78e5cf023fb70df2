-- ===== src/Orders/Lookups.antt =====
-- What the writes to the order service leave to be found, crates/exg-order-service/src/service.rs.
use native.Mathlib.Decide.{ℕ_discrete}
use exg.Prelude.{ℕ, ◌≡◌, ◌≢◌, refl, ap, Option, none, some, [], ◌∷◌, arith}
use exg.Prelude.Assoc.{
  Assoc, lookup, upsert, lookup-upsert_self, lookup-upsert_ne, lookup-remove_self, lookup-remove_ne,
}
use exg.Common.Error.{OrderId, UserId}
use exg.Orders.Record.{Order}
use exg.Orders.Service.{
  OrderService, get_order, set_order, push_completed, complete, move_to_completed, add_order,
}

pub get_order-set_order_self :
    (id : OrderId) (o : Order) (s : OrderService) → get_order id (set_order id o s) ≡ some o
unfolding get_order set_order
get_order-set_order_self id o s = lookup-upsert_self ℕ_discrete id o (λ _. o) s.orders

pub get_order-set_order_ne :
    (id id' : OrderId) (o : Order) (s : OrderService)
    → id' ≢ id
    → get_order id' (set_order id o s) ≡ get_order id' s
unfolding get_order set_order
get_order-set_order_ne id id' o s h = lookup-upsert_ne ℕ_discrete id' id o (λ _. o) s.orders h

upsert_same :
    (k : ℕ) (v : Order) (m : Assoc ℕ Order)
    → lookup ℕ_discrete k m ≡ some v
    → upsert ℕ_discrete k v (λ _. v) m ≡ m
unfolding lookup upsert
upsert_same k v [] h = ground arith
upsert_same k v ((j, w) ∷ m) h = ground (arith, upsert_same k v m)

-- Writing what is there.
pub set_order_same :
    (id : OrderId) (o : Order) (s : OrderService) → get_order id s ≡ some o → set_order id o s ≡ s
unfolding get_order set_order
set_order_same id o s h = ap (λ m. record s { orders = m }) (upsert_same id o s.orders h)

pub get_order-move_to_completed_self :
    (id : OrderId) (user_id : UserId) (s : OrderService)
    → get_order id (move_to_completed id user_id s) ≡ none
unfolding move_to_completed get_order push_completed
get_order-move_to_completed_self id user_id s = gone (get_order id s) refl
  where
    gone :
        (found : Option Order)
        → get_order id s ≡ found
        → get_order id (complete id user_id found s) ≡ none
    gone none e = e
    gone (some o) e = lookup-remove_self ℕ_discrete id s.orders

pub get_order-move_to_completed_ne :
    (id id' : OrderId) (user_id : UserId) (s : OrderService)
    → id' ≢ id
    → get_order id' (move_to_completed id user_id s) ≡ get_order id' s
unfolding move_to_completed get_order push_completed
get_order-move_to_completed_ne id id' user_id s h = kept (get_order id s)
  where
    kept : (found : Option Order) → get_order id' (complete id user_id found s) ≡ get_order id' s
    kept none = refl
    kept (some o) = lookup-remove_ne ℕ_discrete id' id s.orders h

pub get_order-push_completed :
    (id : OrderId) (o : Order) (s : OrderService)
    → get_order id (push_completed o s) ≡ get_order id s
unfolding push_completed get_order
get_order-push_completed id o s = refl

pub get_order-add_order_self :
    (o : Order) (s : OrderService) → get_order o.order_id (add_order o s) ≡ some o
unfolding add_order get_order
get_order-add_order_self o s = get_order-set_order_self o.order_id o s
