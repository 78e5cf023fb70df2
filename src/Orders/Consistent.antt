-- ===== src/Orders/Consistent.antt =====
-- What the writes and the new orders keep of the order service,
-- crates/exg-order-service/src/service.rs.
use mathlib.Core.Path.{subst}
use mathlib.Core.Option.{some-injective, some-ne-none}
use native.Mathlib.Decide.{ℕ_discrete}
use exg.Prelude.{◌≡◌, refl, sym, ap, ◌∙◌, false, Option, none, some}
use exg.Common.Error.{OrderId, UserId}
use exg.Common.Types.{is_terminal}
use exg.Engine.Messages.{
  NewOrder, Command, new_order, cancel_order, amend_order, cancel_all_orders, update_mark, funding,
  admin_credit,
}
use exg.Orders.Record.{Order}
use exg.Orders.Service.{
  OrderService, get_order, set_order, push_completed, move_to_completed, add_order, ids_of,
  order_of, create_known, create_order,
}
use exg.Orders.Lookups.{
  get_order-set_order_self, get_order-set_order_ne, get_order-move_to_completed_self,
  get_order-move_to_completed_ne,
}
use exg.Orders.Index.{Indexed, AllLive}
use exg.Orders.Moving.{set_order-Indexed, move_to_completed-Indexed}
use exg.Orders.Adding.{add_order-Indexed}

-- The indices agree with the orders, and no active order is in a terminal state.
abbrev pub Consistent : OrderService → Type 0
Consistent s = Indexed s × AllLive s

-- The order `o'` is another state of the order `o`.
abbrev pub SameOrder : Order → Order → Type 0
SameOrder o' o =
    (o'.order_id ≡ o.order_id) × (o'.user_id ≡ o.user_id) × (o'.client_order_id ≡ o.client_order_id)

set_order-AllLive :
    (id : OrderId) (o : Order) (s : OrderService)
    → is_terminal o.status ≡ false
    → AllLive s
    → AllLive (set_order id o s)
set_order-AllLive id o s live h = λ id' p e. elim (ℕ_discrete id' id) [
  | yes same ↦
      let there = ap (λ i. get_order i (set_order id o s)) same ∙ get_order-set_order_self id o s in
      ap (λ (x : Order). is_terminal x.status) (sym (some-injective _ _ (sym there ∙ e))) ∙ live
  | no other ↦ h id' p (sym (get_order-set_order_ne id id' o s other) ∙ e)
]

closed-AllLive :
    (id : OrderId) (user_id : UserId) (o : Order) (s : OrderService)
    → AllLive s
    → AllLive (move_to_completed id user_id (set_order id o s))
closed-AllLive id user_id o s h = λ id' p e. elim (ℕ_discrete id' id) [
  | yes same ↦ absurd (
      some-ne-none p (
        sym e
        ∙ ap (λ i. get_order i (move_to_completed id user_id (set_order id o s))) same
        ∙ get_order-move_to_completed_self id user_id (set_order id o s)))
  | no other ↦ h id' p (
      sym (get_order-set_order_ne id id' o s other)
      ∙ sym (get_order-move_to_completed_ne id id' user_id (set_order id o s) other)
      ∙ e)
]

pub push_completed-Consistent :
    (o : Order) (s : OrderService) → Consistent s → Consistent (push_completed o s)
unfolding push_completed get_order ids_of
push_completed-Consistent o s (h, live) = (
  record { distinct = h.distinct; keyed = h.keyed; listed = h.listed; clients = h.clients },
  live,
)

module _ (id : OrderId) (o o' : Order) (s : OrderService) (found : get_order id s ≡ some o)
    (same : SameOrder o' o) (h : Consistent s) where
  pub revised-Consistent : is_terminal o'.status ≡ false → Consistent (set_order id o' s)
  revised-Consistent live = (
    set_order-Indexed id o s found o' same.0 same.1 same.2 h.0,
    set_order-AllLive id o' s live h.1,
  )

  pub closed-Consistent :
      (user_id : UserId)
      → o.user_id ≡ user_id
      → Consistent (move_to_completed id user_id (set_order id o' s))
  closed-Consistent user_id own =
      let found_written = set_order-Indexed id o s found o' same.0 same.1 same.2 h.0 in
      let moved =
        move_to_completed-Indexed id o' (set_order id o' s) (get_order-set_order_self id o' s)
          found_written in
      (
        subst (λ u. Indexed (move_to_completed id u (set_order id o' s))) (same.1 ∙ own) moved,
        closed-AllLive id user_id o' s h.1,
      )

pub add_order-Consistent :
    (o : Order) (s : OrderService)
    → get_order o.order_id s ≡ none
    → is_terminal o.status ≡ false
    → Consistent s
    → Consistent (add_order o s)
unfolding add_order get_order
add_order-Consistent o s absent live (h, all) =
    (add_order-Indexed o s absent h, set_order-AllLive o.order_id o s live all)

create_known-Consistent :
    (c : NewOrder) (s : OrderService) (found : Option Order)
    → get_order c.order_id s ≡ found
    → Consistent s
    → Consistent (create_known c found s)
unfolding is_terminal
create_known-Consistent c s none e h = add_order-Consistent (order_of c) s e refl h
create_known-Consistent c s (some o) e h = h

pub create_order-Consistent :
    (c : Command) (s : OrderService) → Consistent s → Consistent (create_order c s).1
unfolding create_order
create_order-Consistent (new_order c) s h =
    create_known-Consistent c s (get_order c.order_id s) refl h
create_order-Consistent (cancel_order a b c d) s h = h
create_order-Consistent (amend_order a) s h = h
create_order-Consistent (cancel_all_orders a b c) s h = h
create_order-Consistent (update_mark a b c d) s h = h
create_order-Consistent (funding a b) s h = h
create_order-Consistent (admin_credit a b c d) s h = h
