-- ===== src/Orders/Restoring.antt =====
-- The restoration of a snapshot, crates/exg-order-service/src/service.rs.
use mathlib.Core.Option.{some-ne-none}
use native.Mathlib.Decide.{ℕ_discrete}
use exg.Prelude.{ℕ, ◌≡◌, ◌≢◌, refl, sym, ap, ◌∙◌, false, Option, none, some, List, [], ◌∷◌, arith}
use exg.Prelude.Assoc.{Assoc, lookup}
use exg.Common.Error.{OrderId}
use exg.Common.Types.{is_terminal}
use exg.Orders.Record.{Order}
use exg.Orders.Service.{OrderService, new_service, get_order, add_order, ids_of}
use exg.Orders.Snapshot.{orders_in, take_snapshot, restore_orders, restore_from_snapshot}
use exg.Prelude.Distinct.{IsDistinct}
use exg.Orders.Index.{Indexed}
use exg.Orders.Lookups.{get_order-add_order_self, get_order-set_order_ne}
use exg.Orders.Consistent.{Consistent, add_order-Consistent}
use exg.Orders.Reachable.{Reach, Reach-Consistent, new_service-Consistent}

-- Orders under their own ids, each id once, none terminal.
abbrev pub IsListed : Assoc OrderId Order → Type 0
IsListed [] = Unit
IsListed ((id, o) ∷ m) =
    (lookup ℕ_discrete id m ≡ none)
    × (o.order_id ≡ id)
    × (is_terminal o.status ≡ false)
    × IsListed m

-- The first of two orders that is there.
abbrev pub or_there : Option Order → Option Order → Option Order
or_there none found = found
or_there (some o) found = some o

lookup-head :
    (id : OrderId) (o : Order) (m : Assoc OrderId Order)
    → lookup ℕ_discrete id ((id, o) ∷ m) ≡ some o
unfolding lookup
lookup-head id o m = ground arith

lookup-tail :
    (id id' : OrderId) (o : Order) (m : Assoc OrderId Order)
    → id' ≢ id
    → lookup ℕ_discrete id' ((id, o) ∷ m) ≡ lookup ℕ_discrete id' m
unfolding lookup
lookup-tail id id' o m other = ground arith

lookup-IsListed :
    (m : Assoc OrderId Order)
    → IsDistinct m
    → ((id : OrderId) (o : Order)
        → lookup ℕ_discrete id m ≡ some o
        → (o.order_id ≡ id) × (is_terminal o.status ≡ false))
    → IsListed m
lookup-IsListed [] h all = tt
lookup-IsListed ((id, o) ∷ m) h all =
    let (own, live) = all id o (lookup-head id o m) in
    (
      h.0,
      own,
      live,
      lookup-IsListed m h.1 λ id' p e. elim (ℕ_discrete id' id) [
        | yes same ↦ absurd (some-ne-none p (sym e ∙ ap (λ i. lookup ℕ_discrete i m) same ∙ h.0))
        | no other ↦ all id' p (lookup-tail id id' o m other ∙ e)
      ],
    )

get_order-add_order :
    (id : OrderId) (o : Order) (s : OrderService)
    → id ≢ o.order_id
    → get_order id (add_order o s) ≡ get_order id s
unfolding add_order get_order
get_order-add_order id o s other = get_order-set_order_ne o.order_id id o s other

restore_orders-Consistent :
    (m : Assoc OrderId Order) (s : OrderService)
    → IsListed m
    → ((id : OrderId) (o : Order) → lookup ℕ_discrete id m ≡ some o → get_order id s ≡ none)
    → Consistent s
    → Consistent (restore_orders (orders_in m) s)
      × ((id : OrderId)
          → get_order id (restore_orders (orders_in m) s)
            ≡ or_there (lookup ℕ_discrete id m) (get_order id s))
unfolding restore_orders lookup
restore_orders-Consistent [] s listed apart h = (h, λ id. refl)
restore_orders-Consistent ((id, o) ∷ m) s (once, own, live, listed) apart h =
    let s' = add_order o s in
    let new : (id' : OrderId) → id' ≢ id → id' ≢ o.order_id = λ id' other e. other (e ∙ own) in
    let absent : get_order o.order_id s ≡ none =
      ap (λ i. get_order i s) own ∙ apart id o (lookup-head id o m) in
    let (kept, found) =
      restore_orders-Consistent m s' listed
        (λ id' p e. elim (ℕ_discrete id' id) [
          | yes same ↦ absurd (some-ne-none p (sym e ∙ ap (λ i. lookup ℕ_discrete i m) same ∙ once))
          | no other ↦
              get_order-add_order id' o s (new id' other)
              ∙ apart id' p (lookup-tail id id' o m other ∙ e)
        ])
        (add_order-Consistent o s absent live h) in
    (
      kept,
      λ id'. found id' ∙ elim (ℕ_discrete id' id) [
        | yes same ↦
            let there : get_order id' s' ≡ some o =
              ap (λ i. get_order i s') (same ∙ sym own) ∙ get_order-add_order_self o s in
            let head : lookup ℕ_discrete id' ((id, o) ∷ m) ≡ some o =
              ap (λ i. lookup ℕ_discrete i ((id, o) ∷ m)) same ∙ lookup-head id o m in
            ap (λ f. or_there f (get_order id' s')) (ap (λ i. lookup ℕ_discrete i m) same ∙ once)
            ∙ there
            ∙ sym (ap (λ f. or_there f (get_order id' s)) head)
        | no other ↦
            ap (λ f. or_there f (get_order id' s')) (sym (lookup-tail id id' o m other))
            ∙ ap (λ g. or_there (lookup ℕ_discrete id' ((id, o) ∷ m)) g)
                (get_order-add_order id' o s (new id' other))
      ],
    )

pub get_order_new : (id : OrderId) (max : ℕ) → get_order id (new_service max) ≡ none
unfolding get_order new_service lookup
get_order_new id max = refl

or_there_none : (found : Option Order) → or_there found none ≡ found
or_there_none none = refl
or_there_none (some o) = refl

with_completed-Consistent :
    (os : List Order) (s : OrderService)
    → Consistent s
    → Consistent (record s { completed_orders = os })
unfolding get_order ids_of
with_completed-Consistent os s (h, live) = (
  record { distinct = h.distinct; keyed = h.keyed; listed = h.listed; clients = h.clients },
  live,
)

-- What a service keeps over a snapshot and its restoration: the active orders, the completed ones in
-- their order, and indices that agree with the orders.
abbrev pub Kept : OrderService → OrderService → OrderId → Type 0
Kept s s' id =
    (get_order id s' ≡ get_order id s) × (s'.completed_orders ≡ s.completed_orders) × Consistent s'

-- A state that a new service comes to, with the rejections naming the users of their orders:
-- restoring its snapshot gives a service with the same order, or none, under each id, the same
-- completed orders, and indices that agree with the orders.
pub restore_from_snapshot-take_snapshot :
    (max : ℕ) (s : OrderService) (id : OrderId)
    → Reach max s
    → Kept s (restore_from_snapshot (take_snapshot s)) id
unfolding restore_from_snapshot take_snapshot get_order
restore_from_snapshot-take_snapshot max s id r =
    let h = Reach-Consistent max s r in
    let fresh_service = new_service s.max_completed_history in
    let (kept, found) =
      restore_orders-Consistent s.orders fresh_service
        (lookup-IsListed s.orders (Indexed.distinct h.0)
          λ i o e. (Indexed.keyed h.0 i o e, h.1 i o e))
        (λ i o e. get_order_new i s.max_completed_history)
        (new_service-Consistent s.max_completed_history) in
    (
      found id
          ∙ ap (or_there (get_order id s)) (get_order_new id s.max_completed_history)
          ∙ or_there_none (get_order id s),
      refl,
      with_completed-Consistent s.completed_orders _ kept,
    )
