-- ===== src/Engine/Cancels.antt =====
-- `handle_cancel_order` of crates/exg-matching-engine/src/engine.rs, on the orders of the engine as a
-- map from ids and a collection of conditional orders.
use mathlib.Core.List.{Perm}
use mathlib.Core.List.Perm
use mathlib.Core.List.{perm_middle, append-nil}
use exg.Prelude.{
  ◌≡◌, ◌≢◌, ◌⊎◌, ◌∙◌, refl, sym, ap, Bool-cases, Option-cases, inl, inr, ◌==◌, ==→eq, List, [], ◌∷◌,
  ◌++◌, Option, none, some, if◌then◌else◌,
}
use mathlib.Core.Option.{some-injective}
use mathlib.Core.Path.{subst}
use exg.Common.Error.{OrderId, UserId, UnixMicros}
use exg.Matching.Book.{BookOrder, OrderBook, get_order, remove_order, insert_order}
use exg.Matching.View.{
  get_order-remove_order, get_order-insert_order, remove_order-found, remove_order-absent,
  ne_of_test,
}
use exg.Engine.Messages.{Event}
use exg.Engine.State.{MatchingEngine}
use exg.Engine.Cancel.{
  take_stop, not_found, cancel_event, cancel_resting, cancel_stop, cancel_found,
  handle_cancel_order,
}

-- The first order with an id.
abbrev pub first_with : OrderId → List BookOrder → Option BookOrder
first_with order_id [] = none
first_with order_id (o ∷ os) = if o.order_id == order_id then some o else first_with order_id os

abbrev pub or_first : Option BookOrder → Option BookOrder → Option BookOrder
or_first none o = o
or_first (some order) o = some order

-- The order is missing, or another user's.
abbrev pub IsForeign : UserId → Option BookOrder → Type 0
IsForeign user_id none = Unit
IsForeign user_id (some o) = o.user_id ≢ user_id

-- The orders on the book are kept under their ids.
abbrev pub Keyed : OrderBook → Type 0
Keyed b = (i : OrderId) (o : BookOrder) → get_order i b ≡ some o → o.order_id ≡ i

pub take_stop-first : (id : OrderId) (os : List BookOrder) → (take_stop id os).0 ≡ first_with id os
unfolding take_stop
take_stop-first id [] = refl
take_stop-first id (o ∷ os) = elim (Bool-cases (o.order_id == id)) [
  | inl same ↦ rw same refl
  | inr other ↦ rw other (take_stop-first id os)
]

pub take_stop-perm :
    (id : OrderId) (os : List BookOrder) (o : BookOrder)
    → (take_stop id os).0 ≡ some o
    → Perm os (o ∷ (take_stop id os).1)
unfolding take_stop
take_stop-perm id [] o h = cc
take_stop-perm id (p ∷ ps) o h = elim (Bool-cases (p.order_id == id)) [
  | inl same ↦
      let e : some p ≡ some o = rw same at h in
      rw same (subst (λ x. Perm (p ∷ ps) (x ∷ ps)) (some-injective p o e) (Perm.refl _))
  | inr other ↦
      let e : (take_stop id ps).0 ≡ some o = rw other at h in
      rw other
        (Perm.trans (Perm.cons p (take_stop-perm id ps o e)) (Perm.swap o p (take_stop id ps).1))
]

-- An order that comes off and goes back is found as before.
pub put_back :
    (i id : OrderId) (o : BookOrder) (b : OrderBook)
    → get_order id b ≡ some o
    → o.order_id ≡ id
    → get_order i (insert_order o (remove_order id b).1) ≡ get_order i b
put_back i id o b found keyed =
    let key : (i == o.order_id) ≡ (i == id) = ap (λ n. i == n) keyed in
    elim (Bool-cases (i == id)) [
      | inl same ↦ rw (get_order-insert_order, key, same) (rw (==→eq i id same) (sym found))
      | inr other ↦ rw (get_order-insert_order, key, other, get_order-remove_order, other) refl
    ]

pub to_back : (o : BookOrder) (os : List BookOrder) → Perm (o ∷ os) (os ++ (o ∷ []))
to_back o os =
    subst (λ (l : List BookOrder). Perm (o ∷ l) (os ++ (o ∷ []))) (append-nil os)
      (Perm.symm (perm_middle os []))

module _ {Gen : Type 0} where
  abbrev pub wanted : OrderId → MatchingEngine Gen → Option BookOrder
  wanted order_id e = or_first (get_order order_id e.orderbook) (first_with order_id e.stop_orders)

  -- The same orders rest on the book, and the same ones wait for their trigger.
  abbrev pub SameOrders : MatchingEngine Gen → MatchingEngine Gen → Type 0
  SameOrders e e' =
      ((i : OrderId) → get_order i e'.orderbook ≡ get_order i e.orderbook)
      × Perm e.stop_orders e'.stop_orders

  -- One order is gone, from the book or from those that wait.
  abbrev pub Without : OrderId → BookOrder → MatchingEngine Gen → MatchingEngine Gen → Type 0
  Without order_id order e e' =
      (((i : OrderId)
          → get_order i e'.orderbook ≡ (if i == order_id then none else get_order i e.orderbook))
        × (e'.stop_orders ≡ e.stop_orders))
      ⊎ ((e'.orderbook ≡ e.orderbook) × Perm e.stop_orders (order ∷ e'.stop_orders))

  abbrev pub CancelDone :
      OrderId → UserId → UnixMicros → MatchingEngine Gen → List Event × MatchingEngine Gen → Type 0
  CancelDone order_id user_id timestamp e r =
      ((order : BookOrder) × (wanted order_id e ≡ some order)
        × (order.user_id ≡ user_id)
        × (r.0 ≡ cancel_event order_id user_id timestamp order)
        × Without order_id order e r.1)
      ⊎ (IsForeign user_id (wanted order_id e)
          × (r.0 ≡ not_found order_id user_id timestamp)
          × SameOrders e r.1)

  cancel_resting-done :
      (order_id : OrderId) (user_id : UserId) (timestamp : UnixMicros) (order : BookOrder)
      (e : MatchingEngine Gen)
      → get_order order_id e.orderbook ≡ some order
      → order.order_id ≡ order_id
      → CancelDone order_id user_id timestamp e (
          cancel_resting order_id user_id timestamp order
            (record e { orderbook = (remove_order order_id e.orderbook).1 }))
  unfolding cancel_resting
  cancel_resting-done order_id user_id timestamp order e found keyed =
      elim (Bool-cases (order.user_id == user_id)) [
        | inl own ↦ rw own (
            inl (
              order,
              ap (λ w. or_first w (first_with order_id e.stop_orders)) found,
              ==→eq order.user_id user_id own,
              refl,
              inl ((λ i. get_order-remove_order i order_id e.orderbook), refl),
            ))
        | inr foreign ↦ rw foreign (
            inr (
              subst (λ w. IsForeign user_id (or_first w (first_with order_id e.stop_orders)))
                  (sym found) (ne_of_test order.user_id user_id foreign),
              refl,
              ((λ i. put_back i order_id order e.orderbook found keyed), Perm.refl _),
            ))
      ]

  cancel_stop-done :
      (order_id : OrderId) (user_id : UserId) (timestamp : UnixMicros) (found : Option BookOrder)
      (others : List BookOrder) (e : MatchingEngine Gen)
      → get_order order_id e.orderbook ≡ none
      → first_with order_id e.stop_orders ≡ found
      → ((o : BookOrder) → found ≡ some o → Perm e.stop_orders (o ∷ others))
      → CancelDone order_id user_id timestamp e
          (cancel_stop order_id user_id timestamp (found, others) e)
  unfolding cancel_stop
  cancel_stop-done order_id user_id timestamp none others e absent first perm = inr (
    subst (λ w. IsForeign user_id (or_first w (first_with order_id e.stop_orders))) (sym absent)
        (subst (λ w. IsForeign user_id w) (sym first) tt),
    refl,
    ((λ i. refl), Perm.refl _),
  )
  cancel_stop-done order_id user_id timestamp (some order) others e absent first perm =
      elim (Bool-cases (order.user_id == user_id)) [
        | inl own ↦ rw own (
            inl (
              order,
              ap (λ w. or_first w (first_with order_id e.stop_orders)) absent ∙ first,
              ==→eq order.user_id user_id own,
              refl,
              inr (refl, perm order refl),
            ))
        | inr foreign ↦ rw foreign (
            inr (
              subst (λ w. IsForeign user_id (or_first w (first_with order_id e.stop_orders)))
                  (sym absent)
                  (subst (λ w. IsForeign user_id w) (sym first)
                    (ne_of_test order.user_id user_id foreign)),
              refl,
              ((λ i. refl), Perm.trans (perm order refl) (to_back order others)),
            ))
      ]

  pub cancel_found-some :
      (order_id : OrderId) (user_id : UserId) (timestamp : UnixMicros)
      (r : Option BookOrder × OrderBook) (order : BookOrder) (e : MatchingEngine Gen)
      → r.0 ≡ some order
      → cancel_found order_id user_id timestamp r e
        ≡ cancel_resting order_id user_id timestamp order (record e { orderbook = r.1 })
  unfolding cancel_found
  cancel_found-some order_id user_id timestamp (none, book) order e h = cc
  cancel_found-some order_id user_id timestamp (some p, book) order e h =
      ap (λ x. cancel_resting order_id user_id timestamp x (record e { orderbook = book }))
        (some-injective p order h)

  pub cancel_found-none :
      (order_id : OrderId) (user_id : UserId) (timestamp : UnixMicros) (e : MatchingEngine Gen)
      → cancel_found order_id user_id timestamp (none, e.orderbook) e
        ≡ cancel_stop order_id user_id timestamp (take_stop order_id e.stop_orders) e
  unfolding cancel_found
  cancel_found-none order_id user_id timestamp e = refl

  -- On a book whose orders are kept under their ids, a cancel command looks for the order with the id,
  -- on the book and then among those that wait for a trigger. Where it is the user's, the command
  -- reports it as canceled with what was left of it, and exactly this order is gone; otherwise it
  -- reports that there is none, and the same orders rest on the book and wait as before.
  pub handle_cancel_order-done :
      (order_id : OrderId) (user_id : UserId) (timestamp : UnixMicros) (e : MatchingEngine Gen)
      → Keyed e.orderbook
      → CancelDone order_id user_id timestamp e (handle_cancel_order order_id user_id timestamp e)
  unfolding handle_cancel_order
  handle_cancel_order-done order_id user_id timestamp e keyed =
      elim (Option-cases (get_order order_id e.orderbook)) [
        | inr (order, found) ↦
            rw
              (cancel_found-some order_id user_id timestamp (remove_order order_id e.orderbook)
                order e (remove_order-found order_id e.orderbook ∙ found))
              (cancel_resting-done order_id user_id timestamp order e found
                (keyed order_id order found))
        | inl absent ↦
            rw (remove_order-absent order_id e.orderbook absent, cancel_found-none)
              (cancel_stop-done order_id user_id timestamp (take_stop order_id e.stop_orders).0
                (take_stop order_id e.stop_orders).1 e absent
                (sym (take_stop-first order_id e.stop_orders))
                (take_stop-perm order_id e.stop_orders))
      ]
