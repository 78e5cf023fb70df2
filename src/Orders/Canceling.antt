-- ===== src/Orders/Canceling.antt =====
-- What `cancel_user_symbol_orders` cancels, crates/exg-order-service/src/service.rs.
use native.Mathlib.Decide.{ℕ_discrete}
use exg.Prelude.{
  ◌<◌, ◌==◌, ==_refl, ◌≡◌, refl, ◌∙◌, ◌&&◌, Option-cases, inl, inr, false, Option, none, some,
  if◌then◌else◌, arith,
}
use exg.Common.Error.{OrderId, UserId, SymbolId}
use exg.Orders.Record.{Order}
use exg.Orders.Service.{OrderService, get_order, ids_of, cancel_user_symbol_orders}
use exg.Orders.Index.{count}
use exg.Orders.Consistent.{Consistent}
use exg.Orders.Closing.{cancel_ids_exact}
use exg.Orders.Selection.{chosen_ids, chosen_ids_sound, own_ids, passed_over}

-- What is left of an order where the orders of a user in a symbol are canceled.
abbrev pub left_of : UserId → SymbolId → Option Order → Option Order
left_of user_id symbol none = none
left_of user_id symbol (some o) =
    if o.user_id == user_id && o.symbol == symbol then none else some o

pub cancel_user_symbol_orders-Consistent :
    (user_id : UserId) (symbol : SymbolId) (s : OrderService)
    → Consistent s
    → Consistent (cancel_user_symbol_orders user_id symbol s).1
unfolding cancel_user_symbol_orders chosen_ids
cancel_user_symbol_orders-Consistent user_id symbol s h =
    (cancel_ids_exact user_id (chosen_ids s h symbol (ids_of user_id s)) s h
      (own_ids s h symbol user_id)).0

-- Where the indices agree with the orders and no active order is terminal: canceling the orders of
-- a user in a symbol leaves none of them active, and leaves
-- every other order as it was.
pub cancel_user_symbol_orders-left_of :
    (user_id : UserId) (symbol : SymbolId) (s : OrderService) (id : OrderId)
    → Consistent s
    → get_order id (cancel_user_symbol_orders user_id symbol s).1
      ≡ left_of user_id symbol (get_order id s)
unfolding cancel_user_symbol_orders chosen_ids
cancel_user_symbol_orders-left_of user_id symbol s id h =
    let ids = ids_of user_id s in
    let (_, gone, kept) =
      cancel_ids_exact user_id (chosen_ids s h symbol ids) s h (own_ids s h symbol user_id) in
    let chosen = chosen_ids s h symbol ids in
    elim (ℕ_discrete (count id chosen) 0) [
      | yes out ↦ kept id out ∙ elim (Option-cases (get_order id s)) [
        | inl absent ↦ rw absent refl
        | inr (o, found) ↦
            let passed : (o.user_id == user_id && o.symbol == symbol) ≡ false =
              passed_over s h symbol user_id id o found out in
            rw (found, passed) refl
      ]
      | no more ↦
          let c : 0 < count id chosen = omega (arith, more) in
          gone id c ∙ elim (Option-cases (get_order id s)) [
            | inl absent ↦ rw absent refl
            | inr (o, found) ↦
                let own = own_ids s h symbol user_id id o c found in
                let of = (chosen_ids_sound s h symbol ids id o c found).1 in
                rw (found, own, of, ==_refl user_id, ==_refl symbol) refl
          ]
    ]
