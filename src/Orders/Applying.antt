-- ===== src/Orders/Applying.antt =====
-- What the events keep of the order service, crates/exg-order-service/src/service.rs.
use mathlib.Core.Path.{subst}
use mathlib.Core.Option.{some-injective, some-ne-none}
use exg.Prelude.{
  ◌≡◌, refl, sym, ◌||◌, not, Bool-cases, Option-cases, inl, inr, false, Option, none, some,
  if◌then◌else◌,
}
use exg.Decimal.{is_zero}
use exg.Decimal.Panic.{mul, Ensures, returns, Ensures-then, Ensures-some}
use exg.Common.Error.{OrderId, UserId, UnixMicros}
use exg.Common.Types.{is_terminal, is_conditional, fresh}
use exg.Common.Types as Types
use exg.Engine.Messages.{
  Accepted, Filled, Event, accepted, rejected, canceled, filled, traded, mark_price_update,
  funding_rate_update, liquidation_order, admin_credited, realized_pnl, funding_settled,
}
use exg.Orders.Record.{Order}
use exg.Orders.Service.{OrderService, get_order}
use exg.Orders.Events.{
  is_new, no_fills, accept_known, handle_order_accepted, in_completed, reject_known,
  handle_order_rejected, cancel_known, handle_order_canceled, has_trade, filled_order, settle_fill,
  fill_known, handle_order_filled, apply_event,
}
use exg.Orders.Consistent.{
  Consistent, SameOrder, push_completed-Consistent, revised-Consistent, closed-Consistent,
  add_order-Consistent,
}

-- A rejection names the user of the order.
abbrev pub Attributed : Event → OrderService → Type 0
Attributed (rejected id user_id reason t) s =
    (o : Order) → get_order id s ≡ some o → o.user_id ≡ user_id
Attributed _ s = Unit

accept_known-Consistent :
    (a : Accepted) (s : OrderService) (found : Option Order)
    → get_order a.order_id s ≡ found
    → Consistent s
    → Consistent (accept_known a found s)
unfolding is_terminal
accept_known-Consistent a s none e h = add_order-Consistent _ s e refl h
accept_known-Consistent a s (some o) e h =
    elim (Bool-cases (not (is_new o.status) || not (no_fills o.fills))) [
      | inl later ↦ rw later h
      | inr first ↦
          let status = if is_conditional o.order_type then Types.pending_trigger else o.status in
          let live : is_terminal status ≡ false = elim (Bool-cases (is_conditional o.order_type)) [
            | inl waits ↦ rw waits refl
            | inr rests ↦ rw rests (h.1 a.order_id o e)
          ] in
          rw first (
            revised-Consistent a.order_id o (record o { status = status; updated_at = a.timestamp })
              s e (refl, refl, refl) h live)
    ]

reject_known-Consistent :
    (id : OrderId) (user_id : UserId) (t : UnixMicros) (s : OrderService) (found : Option Order)
    → get_order id s ≡ found
    → ((o : Order) → found ≡ some o → o.user_id ≡ user_id)
    → Consistent s
    → Consistent (reject_known id user_id t found s)
reject_known-Consistent id user_id t s none e own h =
    elim (Bool-cases (in_completed id s.completed_orders)) [
      | inl known ↦ rw known h
      | inr unknown ↦ rw unknown (push_completed-Consistent _ s h)
    ]
reject_known-Consistent id user_id t s (some o) e own h = elim (Bool-cases (is_terminal o.status)) [
  | inl over ↦ rw over h
  | inr live ↦ rw live (
      closed-Consistent id o (record o { status = Types.rejected; updated_at = t }) s e
        (refl, refl, refl) h user_id (own o refl))
]

cancel_known-Consistent :
    (id : OrderId) (t : UnixMicros) (s : OrderService) (found : Option Order)
    → get_order id s ≡ found
    → Consistent s
    → Consistent (cancel_known id t found s)
cancel_known-Consistent id t s none e h = h
cancel_known-Consistent id t s (some o) e h = elim (Bool-cases (is_terminal o.status)) [
  | inl over ↦ rw over h
  | inr live ↦ rw live (
      closed-Consistent id o (record o { status = Types.canceled; updated_at = t }) s e
        (refl, refl, refl) h o.user_id refl)
]

-- The order with the fill is the same order; it is terminal where nothing remains.
filled_order-SameOrder :
    (f : Filled) (o : Order)
    → Ensures
        (λ o'. SameOrder o' o × (is_zero f.remaining_qty ≡ false → is_terminal o'.status ≡ false))
        (filled_order f o)
unfolding filled_order is_terminal
filled_order-SameOrder f o =
    Ensures-then (mul f.fill_price f.fill_qty)
      λ quote. Ensures-then _ λ average. returns _ ((refl, refl, refl), λ part. rw part refl)

fill_known-Consistent :
    (f : Filled) (s s' : OrderService) (found : Option Order)
    → get_order f.order_id s ≡ found
    → fill_known f found s ≡ some s'
    → Consistent s
    → Consistent s'
unfolding settle_fill
fill_known-Consistent f s s' none e done h = subst Consistent (some-injective _ _ done) h
fill_known-Consistent f s s' (some o) e done h =
    elim (Bool-cases (has_trade f.trade_id o.fills || is_terminal o.status)) [
      | inl known ↦ subst Consistent (some-injective _ _ (rw known at done)) h
      | inr due ↦ elim (Option-cases (filled_order f o)) [
        | inl aborted ↦ absurd (some-ne-none s' (sym (rw (due, aborted) at done)))
        | inr (o', made) ↦
            let (same, live) = Ensures-some _ (filled_order-SameOrder f o) made in
            subst Consistent (some-injective _ _ (rw (due, made) at done))
              (elim (Bool-cases (is_zero f.remaining_qty)) [
                | inl whole ↦
                    rw whole (closed-Consistent f.order_id o o' s e same h o'.user_id (sym same.1))
                | inr part ↦ rw part (revised-Consistent f.order_id o o' s e same h (live part))
              ])
      ]
    ]

pub apply_event-Consistent :
    (ev : Event) (s s' : OrderService)
    → Consistent s
    → Attributed ev s
    → apply_event ev s ≡ some s'
    → Consistent s'
unfolding apply_event handle_order_accepted handle_order_rejected handle_order_filled
    handle_order_canceled
apply_event-Consistent (accepted a) s s' h own done =
    subst Consistent (some-injective _ _ done)
      (accept_known-Consistent a s (get_order a.order_id s) refl h)
apply_event-Consistent (rejected id user_id reason t) s s' h own done =
    subst Consistent (some-injective _ _ done)
      (reject_known-Consistent id user_id t s (get_order id s) refl own h)
apply_event-Consistent (filled f) s s' h own done =
    fill_known-Consistent f s s' (get_order f.order_id s) refl done h
apply_event-Consistent (canceled id user_id symbol remaining t) s s' h own done =
    subst Consistent (some-injective _ _ done)
      (cancel_known-Consistent id t s (get_order id s) refl h)
apply_event-Consistent (traded a) s s' h own done = subst Consistent (some-injective _ _ done) h
apply_event-Consistent (mark_price_update a b c d) s s' h own done =
    subst Consistent (some-injective _ _ done) h
apply_event-Consistent (funding_rate_update a b c) s s' h own done =
    subst Consistent (some-injective _ _ done) h
apply_event-Consistent (liquidation_order a b c d e) s s' h own done =
    subst Consistent (some-injective _ _ done) h
apply_event-Consistent (admin_credited a b c d) s s' h own done =
    subst Consistent (some-injective _ _ done) h
apply_event-Consistent (realized_pnl a b c d) s s' h own done =
    subst Consistent (some-injective _ _ done) h
apply_event-Consistent (funding_settled a b c d e) s s' h own done =
    subst Consistent (some-injective _ _ done) h
