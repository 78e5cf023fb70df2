-- ===== src/Orders/Accounts.antt =====
-- The fills of every order of the service, crates/exg-order-service/src/service.rs.
use mathlib.Core.Path.{subst}
use mathlib.Core.Option.{some-injective, some-ne-none}
use exg.Prelude.{
  ℕ, ◌≡◌, refl, sym, ◌∙◌, ◌||◌, not, Bool-cases, Option-cases, inl, inr, Option, none, some, List,
  [], ◌∷◌,
}
use exg.Decimal.{is_zero}
use exg.Decimal.Panic.{Ensures-some}
use exg.Common.Types.{is_terminal, is_conditional}
use exg.Common.Types as Types
use exg.Engine.Messages.{
  NewOrder, Accepted, Filled, Event, Command, new_order, cancel_order, amend_order,
  cancel_all_orders, update_mark, funding, admin_credit, accepted, rejected, canceled, filled,
  traded, mark_price_update, funding_rate_update, liquidation_order, admin_credited, realized_pnl,
  funding_settled,
}
use exg.Common.Error.{OrderId, UserId, UnixMicros}
use exg.Orders.Record.{Order}
use exg.Orders.Service.{
  OrderService, get_order, set_order, move_to_completed, new_service, create_known, create_order,
  cancel_one, cancel_listed, cancel_ids, time_of, close_known, cancel_user_symbol_orders,
  found_orders, ids_of, live_ids, order_of,
}
use exg.Orders.Events.{
  is_new, no_fills, accept_known, handle_order_accepted, in_completed, reject_known,
  handle_order_rejected, cancel_known, handle_order_canceled, has_trade, filled_order, settle_fill,
  fill_known, handle_order_filled, apply_event,
}
use exg.Orders.Restoring.{get_order_new}
use exg.Orders.Everywhere.{
  Everywhere, set_order-Everywhere, add_order-Everywhere, push_completed-Everywhere,
  move_to_completed-Everywhere,
}
use exg.Orders.Reachable.{Step, Reach, created, canceled_all, applied, created_new, then_step}
use exg.Orders.Accounting.{Accounted, filled_order-Accounted, unfilled-Accounted}

abbrev AllAccounted : OrderService → Type 0
AllAccounted s = Everywhere Accounted s

-- Another state or another time of an order.
restated :
    (o : Order) (status : Types.OrderStatus) (t : UnixMicros)
    → Accounted o
    → Accounted (record o { status = status; updated_at = t })
restated o status t h = record { executed = h.executed; quoted = h.quoted; average = h.average }

create_known-Accounted :
    (c : NewOrder) (s : OrderService) (found : Option Order)
    → AllAccounted s
    → AllAccounted (create_known c found s)
create_known-Accounted c s none h =
    add_order-Everywhere Accounted (order_of c) s (unfilled-Accounted _ refl refl refl) h
create_known-Accounted c s (some o) h = h

cancel_listed-Accounted :
    (user_id : UserId) (now : UnixMicros) (ids : List OrderId) (s : OrderService)
    → AllAccounted s
    → AllAccounted (cancel_listed user_id now ids s)
unfolding cancel_listed cancel_one
cancel_listed-Accounted user_id now [] s h = h
cancel_listed-Accounted user_id now (id ∷ ids) s h =
    cancel_listed-Accounted user_id now ids _
      (move_to_completed-Everywhere Accounted id user_id _ (closed (get_order id s) refl))
  where
    closed :
        (found : Option Order)
        → get_order id s ≡ found
        → AllAccounted (close_known id Types.canceled now found s)
    closed none e = h
    closed (some o) e = elim (Bool-cases (is_terminal o.status)) [
      | inl over ↦ rw over h
      | inr live ↦
          rw live
            (set_order-Everywhere Accounted id _ s (restated o Types.canceled now (h.0 id o e)) h)
    ]

cancel_ids-Accounted :
    (user_id : UserId) (ids : List OrderId) (s : OrderService)
    → AllAccounted s
    → AllAccounted (cancel_ids user_id ids s).1
cancel_ids-Accounted user_id [] s h = h
cancel_ids-Accounted user_id (id ∷ ids) s h =
    cancel_listed-Accounted user_id (time_of (get_order id s)) (id ∷ ids) s h

module _ (s : OrderService) (h : AllAccounted s) where
  accept_known-Accounted :
      (a : Accepted) (found : Option Order)
      → get_order a.order_id s ≡ found
      → AllAccounted (accept_known a found s)
  accept_known-Accounted a none e =
      add_order-Everywhere Accounted _ s (unfilled-Accounted _ refl refl refl) h
  accept_known-Accounted a (some o) e =
      elim (Bool-cases (not (is_new o.status) || not (no_fills o.fills))) [
        | inl later ↦ rw later h
        | inr first ↦ rw first (
            set_order-Everywhere Accounted a.order_id _ s
              (restated o _ a.timestamp (h.0 a.order_id o e)) h)
      ]

  -- An order that is closed in place and then completed.
  closed-Accounted :
      (id : OrderId) (user_id : UserId) (o : Order)
      → Accounted o
      → AllAccounted (move_to_completed id user_id (set_order id o s))
  closed-Accounted id user_id o p =
      move_to_completed-Everywhere Accounted id user_id _
        (set_order-Everywhere Accounted id o s p h)

  reject_known-Accounted :
      (id : OrderId) (user_id : UserId) (t : UnixMicros) (found : Option Order)
      → get_order id s ≡ found
      → AllAccounted (reject_known id user_id t found s)
  reject_known-Accounted id user_id t none e =
      elim (Bool-cases (in_completed id s.completed_orders)) [
        | inl known ↦ rw known h
        | inr unknown ↦
            rw unknown
              (push_completed-Everywhere Accounted _ s (unfilled-Accounted _ refl refl refl) h)
      ]
  reject_known-Accounted id user_id t (some o) e = elim (Bool-cases (is_terminal o.status)) [
    | inl over ↦ rw over h
    | inr live ↦ rw live (closed-Accounted id user_id _ (restated o Types.rejected t (h.0 id o e)))
  ]

  cancel_known-Accounted :
      (id : OrderId) (t : UnixMicros) (found : Option Order)
      → get_order id s ≡ found
      → AllAccounted (cancel_known id t found s)
  cancel_known-Accounted id t none e = h
  cancel_known-Accounted id t (some o) e = elim (Bool-cases (is_terminal o.status)) [
    | inl over ↦ rw over h
    | inr live ↦
        rw live (closed-Accounted id o.user_id _ (restated o Types.canceled t (h.0 id o e)))
  ]

  fill_known-Accounted :
      (f : Filled) (s' : OrderService) (found : Option Order)
      → get_order f.order_id s ≡ found
      → fill_known f found s ≡ some s'
      → AllAccounted s'
  unfolding settle_fill
  fill_known-Accounted f s' none e done = subst AllAccounted (some-injective _ _ done) h
  fill_known-Accounted f s' (some o) e done =
      elim (Bool-cases (has_trade f.trade_id o.fills || is_terminal o.status)) [
        | inl known ↦ subst AllAccounted (some-injective _ _ (rw known at done)) h
        | inr due ↦ elim (Option-cases (filled_order f o)) [
          | inl aborted ↦ absurd (some-ne-none s' (sym (rw (due, aborted) at done)))
          | inr (o', made) ↦
              let p = Ensures-some _ (filled_order-Accounted f o (h.0 f.order_id o e)) made in
              subst AllAccounted (some-injective _ _ (rw (due, made) at done))
                (elim (Bool-cases (is_zero f.remaining_qty)) [
                  | inl whole ↦ rw whole (closed-Accounted f.order_id o'.user_id o' p)
                  | inr part ↦ rw part (set_order-Everywhere Accounted f.order_id o' s p h)
                ])
        ]
      ]

  apply_event-Accounted :
      (ev : Event) (s' : OrderService) → apply_event ev s ≡ some s' → AllAccounted s'
  unfolding apply_event handle_order_accepted handle_order_rejected handle_order_filled
      handle_order_canceled
  apply_event-Accounted (accepted a) s' done =
      subst AllAccounted (some-injective _ _ done)
        (accept_known-Accounted a (get_order a.order_id s) refl)
  apply_event-Accounted (rejected id user_id reason t) s' done =
      subst AllAccounted (some-injective _ _ done)
        (reject_known-Accounted id user_id t (get_order id s) refl)
  apply_event-Accounted (filled f) s' done =
      fill_known-Accounted f s' (get_order f.order_id s) refl done
  apply_event-Accounted (canceled id user_id symbol remaining t) s' done =
      subst AllAccounted (some-injective _ _ done)
        (cancel_known-Accounted id t (get_order id s) refl)
  apply_event-Accounted (traded a) s' done = subst AllAccounted (some-injective _ _ done) h
  apply_event-Accounted (mark_price_update a b c d) s' done =
      subst AllAccounted (some-injective _ _ done) h
  apply_event-Accounted (funding_rate_update a b c) s' done =
      subst AllAccounted (some-injective _ _ done) h
  apply_event-Accounted (liquidation_order a b c d e) s' done =
      subst AllAccounted (some-injective _ _ done) h
  apply_event-Accounted (admin_credited a b c d) s' done =
      subst AllAccounted (some-injective _ _ done) h
  apply_event-Accounted (realized_pnl a b c d) s' done =
      subst AllAccounted (some-injective _ _ done) h
  apply_event-Accounted (funding_settled a b c d e) s' done =
      subst AllAccounted (some-injective _ _ done) h

create_order-Accounted :
    (c : Command) (s : OrderService) → AllAccounted s → AllAccounted (create_order c s).1
unfolding create_order
create_order-Accounted (new_order c) s h = create_known-Accounted c s (get_order c.order_id s) h
create_order-Accounted (cancel_order a b c d) s h = h
create_order-Accounted (amend_order a) s h = h
create_order-Accounted (cancel_all_orders a b c) s h = h
create_order-Accounted (update_mark a b c d) s h = h
create_order-Accounted (funding a b) s h = h
create_order-Accounted (admin_credit a b c d) s h = h

Step-Accounted : {s s' : OrderService} → Step s s' → AllAccounted s → AllAccounted s'
unfolding cancel_user_symbol_orders
Step-Accounted {s} (created c) h = create_order-Accounted c s h
Step-Accounted {s} (canceled_all user_id symbol) h =
    cancel_ids-Accounted user_id (live_ids symbol (found_orders (ids_of user_id s) s)) s h
Step-Accounted {s} {s'} (applied ev own done) h = apply_event-Accounted s h ev s' done

-- In every state that a new service comes to, with the rejections naming the users of their
-- orders, and for every active or completed order: the executed quantity is the sum of the
-- quantities of its fills and the quote is the sum of their prices times quantities, in the
-- arithmetic of the code, and where the executed quantity is not zero the average price is their
-- quotient.
pub Reach-Accounted : (max : ℕ) (s : OrderService) → Reach max s → Everywhere Accounted s
unfolding new_service
Reach-Accounted max s created_new =
    (λ id o e. absurd (some-ne-none o (sym e ∙ get_order_new id max)), tt)
Reach-Accounted max s (then_step r step) = Step-Accounted step (Reach-Accounted max _ r)
