-- ===== src/Engine/CancelReplays.antt =====
-- A cancel command and the replay of its event, crates/exg-matching-engine/src/engine.rs and
-- replay.rs.
use mathlib.Core.List.{Perm}
use mathlib.Core.List.Perm
use exg.Prelude.{
  ◌≡◌, ◌∙◌, refl, Bool-cases, Option-cases, inl, inr, ◌==◌, List, ◌∷◌, Option, none, some,
}
use exg.Common.Error.{OrderId, UserId, UnixMicros}
use exg.Matching.Book.{BookOrder, get_order, remove_order}
use exg.Matching.View.{remove_order-found, remove_order-absent}
use exg.Engine.Messages.{Event}
use exg.Engine.State.{MatchingEngine}
use exg.Engine.Cancel.{take_stop, cancel_resting, cancel_stop, handle_cancel_order}
use exg.Engine.Cancels.{
  Keyed, put_back, to_back, take_stop-perm, cancel_found-some, cancel_found-none,
}
use exg.Engine.Replay.{Replaying, ok, apply_event, apply_all, apply_canceled, drop_found, drop_stop}
use exg.Engine.Replays.{Reaches, drop_found-some}

module _ {Gen : Type 0} (e : MatchingEngine Gen) (seen : List OrderId) where
  abbrev pub before : Replaying Gen
  before = record { engine = e; seen = seen }

  -- The replay on the engine before ends with the orders of the engine after.
  abbrev pub Replays : List Event × MatchingEngine Gen → Type 0
  Replays done = Reaches (apply_all done.0 before) done.1

module _ {Gen : Type 0} (e : MatchingEngine Gen) (seen : List OrderId) (order_id : OrderId)
    (user_id : UserId) (timestamp : UnixMicros) where
  cancel_resting-Replays :
      (order : BookOrder)
      → get_order order_id e.orderbook ≡ some order
      → order.order_id ≡ order_id
      → Replays e seen (
          cancel_resting order_id user_id timestamp order
            (record e { orderbook = (remove_order order_id e.orderbook).1 }))
  unfolding cancel_resting apply_event apply_canceled apply_all
  cancel_resting-Replays order found keyed = elim (Bool-cases (order.user_id == user_id)) [
    | inl own ↦ rw own (
        rw
          (drop_found-some order_id (remove_order order_id e.orderbook) order (before e seen)
            (remove_order-found order_id e.orderbook ∙ found))
          ((λ i. refl), Perm.refl _))
    | inr foreign ↦
        rw foreign ((λ i. put_back i order_id order e.orderbook found keyed), Perm.refl _)
  ]

  apply_canceled-stop :
      (order : BookOrder) (others : List BookOrder)
      → get_order order_id e.orderbook ≡ none
      → take_stop order_id e.stop_orders ≡ (some order, others)
      → apply_canceled order_id (before e seen)
        ≡ ok (record { engine = record e { stop_orders = others }; seen = seen })
  unfolding apply_canceled drop_found drop_stop
  apply_canceled-stop order others absent taken =
      rw (remove_order-absent order_id e.orderbook absent, taken) refl

  cancel_stop-Replays :
      (found : Option BookOrder) (others : List BookOrder)
      → get_order order_id e.orderbook ≡ none
      → take_stop order_id e.stop_orders ≡ (found, others)
      → ((o : BookOrder) → found ≡ some o → Perm e.stop_orders (o ∷ others))
      → Replays e seen (cancel_stop order_id user_id timestamp (found, others) e)
  unfolding cancel_stop apply_event apply_all
  cancel_stop-Replays none others absent taken perm = ((λ i. refl), Perm.refl _)
  cancel_stop-Replays (some order) others absent taken perm =
      elim (Bool-cases (order.user_id == user_id)) [
        | inl own ↦
            rw own (rw (apply_canceled-stop order others absent taken) ((λ i. refl), Perm.refl _))
        | inr foreign ↦
            rw foreign ((λ i. refl), Perm.trans (perm order refl) (to_back order others))
      ]

-- A cancel command on a book whose orders are kept under their ids: the replay of its event on the
-- engine before the command ends with the same orders on the book, and the same ones that wait for
-- a trigger, as the command.
pub handle_cancel_order-replay :
    {Gen : Type 0} (e : MatchingEngine Gen) (seen : List OrderId) (order_id : OrderId)
    (user_id : UserId) (timestamp : UnixMicros)
    → Keyed e.orderbook
    → Replays e seen (handle_cancel_order order_id user_id timestamp e)
unfolding handle_cancel_order
handle_cancel_order-replay e seen order_id user_id timestamp keyed =
    elim (Option-cases (get_order order_id e.orderbook)) [
      | inr (order, found) ↦
          rw
            (cancel_found-some order_id user_id timestamp (remove_order order_id e.orderbook) order
              e (remove_order-found order_id e.orderbook ∙ found))
            (cancel_resting-Replays e seen order_id user_id timestamp order found
              (keyed order_id order found))
      | inl absent ↦
          rw (remove_order-absent order_id e.orderbook absent, cancel_found-none)
            (cancel_stop-Replays e seen order_id user_id timestamp
              (take_stop order_id e.stop_orders).0 (take_stop order_id e.stop_orders).1 absent refl
              (take_stop-perm order_id e.stop_orders))
    ]
