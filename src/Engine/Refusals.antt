-- ===== src/Engine/Refusals.antt =====
-- A new order that is refused, crates/exg-matching-engine/src/engine.rs.
use exg.Prelude.{
  ◌≡◌, ◌⊎◌, refl, ap, true, Bool-cases, inl, inr, ◌&&◌, ◌||◌, Option, none, some, List, [], ◌∷◌,
}
use exg.Decimal.{Decimal128, is_zero, is_negative, lt_dec}
use exg.Decimal.Panic.{Ensures, returns, Ensures-then, Ensures-some}
use exg.Common.Types.{is_conditional}
use exg.Matching.Book.{BookOrder, OrderBook, get_order}
use exg.Matching.Matcher.{MatchResult, match_order, is_post_only, is_fok, fok_available}
use exg.Engine.Messages.{TradeId, NewOrder, RejectReason, Event, invalid_order, duplicate_order}
use exg.Engine.State.{MatchingEngine}
use exg.Engine.Entry.{
  is_some, effective_price, check_visible, build_order, accept_event, reject_event, reject,
}
use exg.Engine.Accept.{queue_stop, settle_match, accept_order, enter_priced, handle_new_order}

-- A match that is rejected leaves the book as it was.
match_order-rejected :
    (order : BookOrder) (b : OrderBook)
    → (match_order order b).0.rejected ≡ true
    → (match_order order b).2 ≡ b
unfolding match_order
match_order-rejected order b h = elim (Bool-cases (is_post_only order.time_in_force)) [
  | inl post ↦ rw post refl
  | inr no_post ↦
      elim (Bool-cases
        (is_fok order.time_in_force && lt_dec (fok_available order b) order.remaining_qty)) [
          | inl short ↦ rw (no_post, short) refl
          | inr enough ↦ cc (rw (no_post, enough) at h)
        ]
]

-- The first event says whether the order was accepted.
abbrev pub FirstIs : Event → List Event → Type 0
FirstIs ev [] = ⊥
FirstIs ev (x ∷ es) = x ≡ ev

module _ {Gen : Type 0} where
  -- Either one event refuses the order and the engine is as it was, or the first event accepts it.
  abbrev pub Decided : NewOrder → MatchingEngine Gen → List Event × MatchingEngine Gen → Type 0
  Decided n e r =
      ((reason : RejectReason) × (r.0 ≡ reject_event n reason ∷ []) × (r.1 ≡ e))
      ⊎ ((price : Decimal128) × (effective_price n ≡ some price)
          × FirstIs (accept_event n price e.mark_price) r.0)

  reject-Decided :
      (n : NewOrder) (reason : RejectReason) (e : MatchingEngine Gen)
      → Ensures (Decided n e) (reject n reason e)
  unfolding reject
  reject-Decided n reason e = returns _ (inl (reason, refl, refl))

module _ {Gen : Type 0} (next_id : Gen → TradeId × Gen) where
  settle_match-Decided :
      (n : NewOrder) (price : Decimal128) (r : MatchResult × BookOrder × OrderBook)
      (e : MatchingEngine Gen)
      → effective_price n ≡ some price
      → (r.0.rejected ≡ true → r.2 ≡ e.orderbook)
      → Ensures (Decided n e) (settle_match next_id n price r e)
  unfolding settle_match reject
  settle_match-Decided n price (result, taker, book) e p kept = elim (Bool-cases result.rejected) [
    | inl refused ↦ rw refused (
        returns _
          (inl (_, refl, ap (λ (b : OrderBook). record e { orderbook = b }) (kept refused))))
    | inr matched ↦ rw matched (Ensures-then _ (λ emitted. returns _ (inr (price, p, refl))))
  ]

  accept_order-Decided :
      (n : NewOrder) (price : Decimal128) (e : MatchingEngine Gen)
      → effective_price n ≡ some price
      → Ensures (Decided n e) (accept_order next_id n price e)
  unfolding accept_order queue_stop
  accept_order-Decided n price e p = elim (Bool-cases (is_conditional n.order_type)) [
    | inl waits ↦ rw waits (returns _ (inr (price, p, refl)))
    | inr enters ↦
        let order = build_order n price e.mark_price in
        rw enters (
          settle_match-Decided n price (match_order order e.orderbook) e p
            (match_order-rejected order e.orderbook))
  ]

  enter_priced-Decided :
      (n : NewOrder) (price : Option Decimal128) (e : MatchingEngine Gen)
      → effective_price n ≡ price
      → Ensures (Decided n e) (enter_priced next_id n price e)
  unfolding enter_priced
  enter_priced-Decided n none e p = reject-Decided n invalid_order e
  enter_priced-Decided n (some price) e p =
      Ensures-then (check_visible n e.symbol_config) (λ enough. elim (Bool-cases enough) [
        | inl large ↦ rw large (accept_order-Decided n price e p)
        | inr small ↦ rw small (reject-Decided n invalid_order e)
      ])

  handle_new_order-Decided :
      (n : NewOrder) (e : MatchingEngine Gen) → Ensures (Decided n e) (handle_new_order next_id n e)
  unfolding handle_new_order
  handle_new_order-Decided n e = elim (Bool-cases (is_zero n.quantity || is_negative n.quantity)) [
    | inl empty ↦ rw empty (reject-Decided n invalid_order e)
    | inr counts ↦ elim (Bool-cases (is_some (get_order n.order_id e.orderbook))) [
      | inl known ↦ rw (counts, known) (reject-Decided n duplicate_order e)
      | inr fresh ↦ rw (counts, fresh) (enter_priced-Decided n (effective_price n) e refl)
    ]
  ]

  -- Where a new order is processed, either its only event refuses it and the engine is as it was,
  -- with its book, its conditional orders and its generator of trade ids; or it has an effective
  -- price, and its first event accepts it at that price.
  pub handle_new_order-refusal :
      (n : NewOrder) (e e' : MatchingEngine Gen) (events : List Event)
      → handle_new_order next_id n e ≡ some (events, e')
      → Decided n e (events, e')
  handle_new_order-refusal n e e' events h =
      Ensures-some (Decided n e) (handle_new_order-Decided n e) h
