-- ===== src/Engine/Replays.antt =====
-- Live processing and replay, crates/exg-matching-engine/src/engine.rs and replay.rs.
use mathlib.Core.List.Perm
use exg.Prelude.{
  ◌≡◌, ◌⊎◌, refl, Bool-cases, inl, inr, ◌||◌, ◌==◌, List, [], ◌∷◌, Option, none, some, true, false,
  ℕ, arith,
}
use exg.Decimal.{Decimal128}
use exg.Decimal.Panic.{Ensures, returns, aborts, Ensures-some}
use exg.Common.Error.{OrderId}
use exg.Matching.Book.{BookOrder, OrderBook, get_order, update_qty}
use exg.Engine.Messages.{AmendOrder, Event, TradeId, invalid_order}
use exg.Engine.State.{MatchingEngine}
use exg.Engine.Cancels.{SameOrders}
use exg.Engine.Amend.{
  amend_event, amend_refusal, report_updated, reduce_in_place, amend_owned, amend_found,
  handle_amend_order, price_changed, qty_up, qty_down, not_positive,
}
use exg.Engine.Replay.{
  duplicate_order, Replaying, Applied, ok, failed, apply_event, apply_all, apply_accepted,
  drop_found, drop_stop,
}

module _ {Gen : Type 0} where
  -- A replay that ends with the orders of an engine.
  abbrev pub Reaches : Applied Gen → MatchingEngine Gen → Type 0
  Reaches (ok r) e = SameOrders r.engine e
  Reaches (failed err) e = ⊥

  pub drop_found-some :
      (order_id : OrderId) (found : Option BookOrder × OrderBook) (order : BookOrder)
      (r : Replaying Gen)
      → found.0 ≡ some order
      → drop_found order_id found r
        ≡ ok (record r { engine = record r.engine { orderbook = found.1 } })
  unfolding drop_found
  drop_found-some order_id (none, book) order r h = cc
  drop_found-some order_id (some p, book) order r h = refl

  pub drop_stop-some :
      (order_id : OrderId) (found : Option BookOrder × List BookOrder) (order : BookOrder)
      (r : Replaying Gen)
      → found.0 ≡ some order
      → drop_stop order_id found r
        ≡ ok (record r { engine = record r.engine { stop_orders = found.1 } })
  unfolding drop_stop
  drop_stop-some order_id (none, others) order r h = cc
  drop_stop-some order_id (some p, others) order r h = refl

  pub Same-refl : (e : MatchingEngine Gen) → SameOrders e e
  Same-refl e = ((λ i. refl), Perm.refl _)

  pub replay_one :
      (ev : Event) (r r' : Replaying Gen) → apply_event ev r ≡ ok r' → apply_all (ev ∷ []) r ≡ ok r'
  unfolding apply_all
  replay_one ev r r' h = rw h refl

  known_is_duplicate :
      (a : AmendOrder) (order updated : BookOrder) (r : Replaying Gen)
      → get_order a.order_id r.engine.orderbook ≡ some order
      → apply_all (amend_event a updated ∷ []) r ≡ failed (duplicate_order a.order_id)
  unfolding apply_all apply_accepted
  known_is_duplicate a order updated r h = rw h refl

  -- The replay on the engine before stops at a duplicate; or the command was refused for the new
  -- quantity.
  abbrev pub Unreplayable :
      AmendOrder → MatchingEngine Gen → List OrderId → List Event × MatchingEngine Gen → Type 0
  Unreplayable a e seen done =
      (apply_all done.0 (record { engine = e; seen = seen }) ≡ failed (duplicate_order a.order_id))
      ⊎ ((q : Decimal128) × (a.new_quantity ≡ some q)
          × (not_positive q ≡ true)
          × (done.0 ≡ amend_refusal a invalid_order ∷ []))

  report_updated-Unreplayable :
      (a : AmendOrder) (order : BookOrder) (found : Option BookOrder) (e e' : MatchingEngine Gen)
      (seen : List OrderId)
      → get_order a.order_id e.orderbook ≡ some order
      → Ensures (Unreplayable a e seen) (report_updated a found e')
  unfolding report_updated
  report_updated-Unreplayable a order none e e' seen h = aborts
  report_updated-Unreplayable a order (some updated) e e' seen h =
      returns _ (inl (known_is_duplicate a order updated (record { engine = e; seen = seen }) h))

  reduce-Unreplayable :
      (a : AmendOrder) (order : BookOrder) (new : Option Decimal128) (e : MatchingEngine Gen)
      (seen : List OrderId)
      → get_order a.order_id e.orderbook ≡ some order
      → a.new_quantity ≡ new
      → Ensures (Unreplayable a e seen) (reduce_in_place a new e)
  unfolding reduce_in_place
  reduce-Unreplayable a order none e seen h k = aborts
  reduce-Unreplayable a order (some q) e seen h k =
      let book = update_qty a.order_id q e.orderbook in
      elim (Bool-cases (not_positive q)) [
        | inl bad ↦ rw bad (returns _ (inr (q, k, bad, refl)))
        | inr good ↦ rw good (
            report_updated-Unreplayable a order (get_order a.order_id book) e
              (record e { orderbook = book }) seen h)
      ]

eq→== : (a b : ℕ) → a ≡ b → (a == b) ≡ true
eq→== a b h = ground arith

module _ {Gen : Type 0} (next_id : Gen → TradeId × Gen) where
  handle_amend_order-Unreplayable :
      (a : AmendOrder) (e : MatchingEngine Gen) (order : BookOrder) (seen : List OrderId)
      → get_order a.order_id e.orderbook ≡ some order
      → order.user_id ≡ a.user_id
      → (price_changed a order || qty_up a order) ≡ false
      → Ensures (Unreplayable a e seen) (handle_amend_order next_id a e)
  unfolding handle_amend_order amend_found amend_owned
  handle_amend_order-Unreplayable a e order seen found own stays =
      rw (found, eq→== order.user_id a.user_id own, stays)
        (elim (Bool-cases (qty_down a order)) [
          | inl less ↦ rw less (reduce-Unreplayable a order a.new_quantity e seen found refl)
          | inr same ↦ rw same (
              returns _
                (inl (known_is_duplicate a order order (record { engine = e; seen = seen }) found)))
        ])

  -- An amendment by the owner of an order on the book that changes neither its price nor raises its
  -- quantity, and that goes through, is reported by an event that a replay on the engine before the
  -- command refuses as a duplicate order, unless it was refused as the new quantity is not positive.
  pub handle_amend_order-replay :
      (a : AmendOrder) (e e' : MatchingEngine Gen) (events : List Event) (order : BookOrder)
      (seen : List OrderId)
      → get_order a.order_id e.orderbook ≡ some order
      → order.user_id ≡ a.user_id
      → (price_changed a order || qty_up a order) ≡ false
      → handle_amend_order next_id a e ≡ some (events, e')
      → Unreplayable a e seen (events, e')
  handle_amend_order-replay a e e' events order seen found own stays h =
      Ensures-some (Unreplayable a e seen)
        (handle_amend_order-Unreplayable a e order seen found own stays) h
