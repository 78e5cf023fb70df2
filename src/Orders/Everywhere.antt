-- ===== src/Orders/Everywhere.antt =====
-- A property of every order, active or completed, of the order service,
-- crates/exg-order-service/src/service.rs.
use mathlib.Core.Path.{subst}
use mathlib.Core.Option.{some-injective, some-ne-none}
use native.Mathlib.Decide.{ℕ_discrete}
use exg.Prelude.{
  ◌≡◌, refl, sym, ap, ◌∙◌, leb, Bool-cases, inl, inr, Option, none, some, List, [], ◌∷◌,
}
use exg.Prelude.Lists.{length, drop, AllOf, AllOf-append}
use exg.Common.Error.{OrderId, UserId}
use exg.Orders.Record.{Order}
use exg.Orders.Service.{
  OrderService, get_order, set_order, push_completed, complete, move_to_completed, add_order,
}
use exg.Orders.Lookups.{
  get_order-set_order_self, get_order-set_order_ne, get_order-push_completed,
  get_order-move_to_completed_self, get_order-move_to_completed_ne,
}

abbrev pub Everywhere : (Order → Type 0) → OrderService → Type 0
Everywhere P s =
    ((id : OrderId) (o : Order) → get_order id s ≡ some o → P o) × AllOf P s.completed_orders

module _ (P : Order → Type 0) where
  pub set_order-Everywhere :
      (id : OrderId) (o : Order) (s : OrderService)
      → P o
      → Everywhere P s
      → Everywhere P (set_order id o s)
  unfolding set_order
  set_order-Everywhere id o s p h = (
    λ id' x e. elim (ℕ_discrete id' id) [
      | yes same ↦
          let there =
            ap (λ i. get_order i (set_order id o s)) same ∙ get_order-set_order_self id o s in
          subst P (some-injective _ _ (sym there ∙ e)) p
      | no other ↦ h.0 id' x (sym (get_order-set_order_ne id id' o s other) ∙ e)
    ],
    h.1,
  )

  pub add_order-Everywhere :
      (o : Order) (s : OrderService) → P o → Everywhere P s → Everywhere P (add_order o s)
  unfolding add_order get_order set_order
  add_order-Everywhere o s p h = set_order-Everywhere o.order_id o s p h

  drop_one : (os : List Order) → AllOf P os → AllOf P (drop 1 os)
  drop_one [] h = h
  drop_one (o ∷ os) h = h.1

  push_all :
      (o : Order) (s : OrderService)
      → P o
      → AllOf P s.completed_orders
      → AllOf P (push_completed o s).completed_orders
  unfolding push_completed
  push_all o s p h = elim (Bool-cases (leb s.max_completed_history (length s.completed_orders))) [
    | inl full ↦ rw full (AllOf-append P _ _ (drop_one s.completed_orders h) p)
    | inr room ↦ rw room (AllOf-append P _ _ h p)
  ]

  pub push_completed-Everywhere :
      (o : Order) (s : OrderService) → P o → Everywhere P s → Everywhere P (push_completed o s)
  push_completed-Everywhere o s p h =
      (λ id x e. h.0 id x (sym (get_order-push_completed id o s) ∙ e), push_all o s p h.1)

  complete_all :
      (id : OrderId) (user_id : UserId) (s : OrderService)
      → Everywhere P s
      → (found : Option Order) → get_order id s ≡ found
      → AllOf P (complete id user_id found s).completed_orders
  complete_all id user_id s h none e = h.1
  complete_all id user_id s h (some o) e = push_all o _ (h.0 id o e) h.1

  pub move_to_completed-Everywhere :
      (id : OrderId) (user_id : UserId) (s : OrderService)
      → Everywhere P s
      → Everywhere P (move_to_completed id user_id s)
  unfolding move_to_completed
  move_to_completed-Everywhere id user_id s h = (
    λ id' x e. elim (ℕ_discrete id' id) [
      | yes same ↦ absurd (
          some-ne-none x (
            sym e
            ∙ ap (λ i. get_order i (move_to_completed id user_id s)) same
            ∙ get_order-move_to_completed_self id user_id s))
      | no other ↦ h.0 id' x (sym (get_order-move_to_completed_ne id id' user_id s other) ∙ e)
    ],
    complete_all id user_id s h (get_order id s) refl,
  )
