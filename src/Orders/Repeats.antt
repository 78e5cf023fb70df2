-- ===== src/Orders/Repeats.antt =====
-- An event that is applied once more, crates/exg-order-service/src/service.rs.
use exg.Prelude.{
  ℕ, ◌==◌, ==_refl, ◌≡◌, refl, sym, ap, ◌||◌, not, Bool-cases, Option-cases, inl, inr, true, Option,
  none, some, List, [], ◌∷◌, ◌++◌,
}
use exg.Decimal.{is_zero}
use mathlib.Core.Path.{subst}
use mathlib.Core.Option.{some-injective, some-ne-none}
use exg.Decimal.Panic.{mul, Ensures, returns, Ensures-then, Ensures-some}
use exg.Common.Error.{OrderId, UserId, UnixMicros}
use exg.Common.Types.{is_terminal, is_conditional, fresh}
use exg.Common.Types as Types
use exg.Engine.Messages.{
  Accepted, Filled, Event, accepted, rejected, canceled, filled, traded, mark_price_update,
  funding_rate_update, liquidation_order, admin_credited, realized_pnl, funding_settled,
}
use exg.Orders.Record.{FillRecord, Order}
use exg.Orders.Service.{
  OrderService, get_order, set_order, push_completed, move_to_completed, add_order,
}
use exg.Orders.Events.{
  minimal_order, is_new, no_fills, accept_known, handle_order_accepted, in_completed, reject_known,
  handle_order_rejected, cancel_known, handle_order_canceled, has_trade, fill_record, filled_order,
  settle_fill, fill_known, handle_order_filled, apply_event,
}
use exg.Orders.Lookups.{
  get_order-add_order_self, get_order-set_order_self, set_order_same, get_order-push_completed,
  get_order-move_to_completed_self,
}

module _ (id : OrderId) where
  canceled_again :
      (timestamp : UnixMicros) (s : OrderService) (found : Option Order)
      → get_order id s ≡ found
      → handle_order_canceled id timestamp (cancel_known id timestamp found s)
        ≡ cancel_known id timestamp found s
  unfolding handle_order_canceled
  canceled_again timestamp s none e = rw e refl
  canceled_again timestamp s (some o) e = elim (Bool-cases (is_terminal o.status)) [
    | inl over ↦ rw (over, e, over) refl
    | inr live ↦
        rw
          (
            live,
            get_order-move_to_completed_self id o.user_id
                (set_order id (record o { status = Types.canceled; updated_at = timestamp }) s),
          )
          refl
  ]

  in_completed-append :
      (os : List Order) (o : Order) → o.order_id ≡ id → in_completed id (os ++ (o ∷ [])) ≡ true
  unfolding in_completed
  in_completed-append [] o e = rw (e, ==_refl id) refl
  in_completed-append (p ∷ os) o e =
      rw (in_completed-append os o e)
        (elim (Bool-cases (p.order_id == id)) [ inl h ↦ rw h refl | inr h ↦ rw h refl ])

  -- The order that was completed last is among the completed ones.
  push_completed-in_completed :
      (o : Order) (s : OrderService)
      → o.order_id ≡ id
      → in_completed id (push_completed o s).completed_orders ≡ true
  unfolding push_completed
  push_completed-in_completed o s e = in_completed-append _ o e

  move_to_completed-in_completed :
      (user_id : UserId) (o : Order) (s : OrderService)
      → get_order id s ≡ some o
      → o.order_id ≡ id
      → in_completed id (move_to_completed id user_id s).completed_orders ≡ true
  unfolding move_to_completed
  move_to_completed-in_completed user_id o s e h = rw e (push_completed-in_completed o _ h)

  rejected_again :
      (user_id : UserId) (timestamp : UnixMicros) (s : OrderService) (found : Option Order)
      → ((o : Order) → found ≡ some o → o.order_id ≡ id)
      → get_order id s ≡ found
      → handle_order_rejected id user_id timestamp (reject_known id user_id timestamp found s)
        ≡ reject_known id user_id timestamp found s
  unfolding handle_order_rejected
  rejected_again user_id timestamp s none keyed e =
      elim (Bool-cases (in_completed id s.completed_orders)) [
        | inl known ↦ rw (known, e, known) refl
        | inr unknown ↦
            let m = minimal_order id user_id 0 none Types.rejected timestamp in
            rw (unknown, get_order-push_completed id m s, e, push_completed-in_completed m s refl)
              refl
      ]
  rejected_again user_id timestamp s (some o) keyed e = elim (Bool-cases (is_terminal o.status)) [
    | inl over ↦ rw (over, e, over) refl
    | inr live ↦
        let o' : Order = record o { status = Types.rejected; updated_at = timestamp } in
        let s' = set_order id o' s in
        rw
          (
            live,
            get_order-move_to_completed_self id user_id s',
            move_to_completed-in_completed user_id o' s' (get_order-set_order_self id o' s)
                (keyed o refl),
          )
          refl
  ]

accepted_again :
    (a : Accepted) (s : OrderService) (found : Option Order)
    → get_order a.order_id s ≡ found
    → handle_order_accepted a (accept_known a found s) ≡ accept_known a found s
unfolding handle_order_accepted is_conditional
accepted_again a s none e =
    let m = minimal_order a.order_id a.user_id a.symbol a.client_order_id fresh a.timestamp in
    let there : get_order a.order_id (add_order m s) ≡ some m = get_order-add_order_self m s in
    rw there (set_order_same a.order_id m (add_order m s) there)
accepted_again a s (some o) e =
    elim (Bool-cases (not (is_new o.status) || not (no_fills o.fills))) [
      | inl later ↦ rw (later, e, later) refl
      | inr first ↦ elim (Bool-cases (is_conditional o.order_type)) [
        | inl waits ↦
            let o' : Order = record o {
              status = Types.pending_trigger;
              updated_at = a.timestamp;
            } in
            rw (first, waits, get_order-set_order_self a.order_id o' s) refl
        | inr rests ↦
            let o' : Order = record o { updated_at = a.timestamp } in
            let there = get_order-set_order_self a.order_id o' s in
            rw (first, rests, there, first, rests)
              (set_order_same a.order_id o' (set_order a.order_id o' s) there)
      ]
    ]

has_trade-append :
    (trade_id : ℕ) (fs : List FillRecord) (f : FillRecord)
    → f.trade_id ≡ trade_id
    → has_trade trade_id (fs ++ (f ∷ [])) ≡ true
unfolding has_trade
has_trade-append trade_id [] f e = rw (e, ==_refl trade_id) refl
has_trade-append trade_id (g ∷ fs) f e =
    rw (has_trade-append trade_id fs f e)
      (elim (Bool-cases (g.trade_id == trade_id)) [ inl h ↦ rw h refl | inr h ↦ rw h refl ])

filled_order-has_trade :
    (f : Filled) (o : Order)
    → Ensures (λ o'. has_trade f.trade_id o'.fills ≡ true) (filled_order f o)
unfolding filled_order
filled_order-has_trade f o = Ensures-then (mul f.fill_price f.fill_qty) λ quote.
    Ensures-then _ λ average. returns _ (has_trade-append f.trade_id o.fills (fill_record f) refl)

filled_again :
    (f : Filled) (s s' : OrderService) (found : Option Order)
    → get_order f.order_id s ≡ found
    → fill_known f found s ≡ some s'
    → handle_order_filled f s' ≡ some s'
unfolding handle_order_filled settle_fill
filled_again f s s' none e h =
    subst (λ t. fill_known f (get_order f.order_id t) t ≡ some t) (some-injective _ _ h) (rw e refl)
filled_again f s s' (some o) e h =
    elim (Bool-cases (has_trade f.trade_id o.fills || is_terminal o.status)) [
      | inl known ↦
          let same : s ≡ s' = some-injective _ _ (rw known at h) in
          subst (λ t. fill_known f (get_order f.order_id t) t ≡ some t) same (rw (e, known) refl)
      | inr due ↦ elim (Option-cases (filled_order f o)) [
        | inl aborted ↦ absurd (some-ne-none s' (sym (rw (due, aborted) at h)))
        | inr (o', done) ↦
            let same : settle_fill f s o' ≡ s' = some-injective _ _ (rw (due, done) at h) in
            let traded = Ensures-some _ (filled_order-has_trade f o) done in
            subst (λ t. fill_known f (get_order f.order_id t) t ≡ some t) same
              (elim (Bool-cases (is_zero f.remaining_qty)) [
                | inl whole ↦
                    rw
                      (
                        whole,
                        get_order-move_to_completed_self f.order_id o'.user_id
                            (set_order f.order_id o' s),
                      )
                      refl
                | inr part ↦ rw (part, get_order-set_order_self f.order_id o' s, traded) refl
              ])
      ]
    ]

-- The orders of the service are kept under their ids.
abbrev pub IsKeyed : OrderService → Type 0
IsKeyed s = (id : OrderId) (o : Order) → get_order id s ≡ some o → o.order_id ≡ id

again :
    (step : OrderService → OrderService) {s s' : OrderService}
    → some (step s) ≡ some s'
    → step (step s) ≡ step s
    → some (step s') ≡ some s'
again step h e = ap some (subst (λ t. step t ≡ t) (some-injective _ _ h) e)

-- Where the orders are kept under their ids, and an event was applied without a panic, applying the
-- same event again changes nothing.
pub apply_event_twice :
    (ev : Event) (s s' : OrderService)
    → IsKeyed s
    → apply_event ev s ≡ some s'
    → apply_event ev s' ≡ some s'
unfolding apply_event handle_order_accepted handle_order_rejected handle_order_filled
    handle_order_canceled
apply_event_twice (accepted a) s s' keyed h =
    again (handle_order_accepted a) h (accepted_again a s (get_order a.order_id s) refl)
apply_event_twice (rejected id user_id reason t) s s' keyed h =
    again (handle_order_rejected id user_id t) h
      (rejected_again id user_id t s (get_order id s) (keyed id) refl)
apply_event_twice (filled f) s s' keyed h = filled_again f s s' (get_order f.order_id s) refl h
apply_event_twice (canceled id user_id symbol remaining t) s s' keyed h =
    again (handle_order_canceled id t) h (canceled_again id t s (get_order id s) refl)
apply_event_twice (traded a) s s' keyed h = refl
apply_event_twice (mark_price_update a b c d) s s' keyed h = refl
apply_event_twice (funding_rate_update a b c) s s' keyed h = refl
apply_event_twice (liquidation_order a b c d e) s s' keyed h = refl
apply_event_twice (admin_credited a b c d) s s' keyed h = refl
apply_event_twice (realized_pnl a b c d) s s' keyed h = refl
apply_event_twice (funding_settled a b c d e) s s' keyed h = refl
