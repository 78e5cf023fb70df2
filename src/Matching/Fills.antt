-- ===== src/Matching/Fills.antt =====
-- The quantities of the fills of a match, crates/exg-matching-engine/src/matcher.rs.
use native.Mathlib.Decide.{ℕ_discrete}
use exg.Prelude.{
  ◌≡◌, ◌⊎◌, refl, arith, ℕ, ◌+◌, pos, pos_part, ◌≤ℤ◌, Bool-cases, Option-cases, inl, inr, false,
  List, [], ◌∷◌, ◌&&◌,
}
use exg.Prelude.Assoc.{AllValues, AllValues-upsert, AllValues-remove, AllValues-lookup, lookup}
use exg.Decimal.{Decimal128, Fits, sub, min, is_zero, lt_dec}
use exg.Common.Error.{OrderId}
use exg.Common.Types.{Side, buy, sell, is_limit}
use exg.Matching.Quantities.{
  Tradable, Live, filled, AllTradable, filled-append, AllTradable-append, min-facts, sub_of_le,
  not_zero,
}
use exg.Matching.Book.{
  BookOrder, OrderBook, Levels, change_levels, remove_order, update_qty, get_order, resting, better,
}
use exg.Matching.Matcher.{
  Matching, settle_maker, fill_maker, match_maker, match_ids, match_prices, ids_at,
  match_against_asks, match_against_bids, execute, is_post_only, is_fok, fok_available, match_order,
}

-- The makers can be traded, and what was filled and what the taker has left make up `quantity`.
pub record Sound (quantity : ℕ) (m : Matching) : Type 0 where
  pub live : AllValues Live m.book.orders
  pub left : (pos 0 ≤ℤ m.taker.remaining_qty) × Fits m.taker.remaining_qty
  pub total : filled m.fills + pos_part m.taker.remaining_qty ≡ quantity
  pub traded : AllTradable m.fills

pub change_levels-orders :
    (side : Side) (f : Levels → Levels) (b : OrderBook) → (change_levels side f b).orders ≡ b.orders
unfolding change_levels
change_levels-orders buy f b = refl
change_levels-orders sell f b = refl

pub remove_order-Live :
    (id : OrderId) (b : OrderBook)
    → AllValues Live b.orders
    → AllValues Live (remove_order id b).1.orders
unfolding remove_order
remove_order-Live id b h = elim (Option-cases (lookup ℕ_discrete id b.orders)) [
  | inl absent ↦ rw absent h
  | inr (order, e) ↦
      rw (e, change_levels-orders order.side) (AllValues-remove ℕ_discrete Live id b.orders h)
]

pub update_qty-Live :
    (id : OrderId) (q : Decimal128) (b : OrderBook)
    → AllValues Live b.orders
    → Tradable q
    → AllValues Live (update_qty id q b).orders
unfolding update_qty
update_qty-Live id q b h t = elim (Option-cases (lookup ℕ_discrete id b.orders)) [
  | inl absent ↦ rw absent h
  | inr (order, e) ↦
      rw (e, change_levels-orders order.side)
        (AllValues-upsert ℕ_discrete Live id order (λ o. record o { remaining_qty = q }) b.orders h
          t)
]

settle_maker-Live :
    (id : OrderId) (q : Decimal128) (b : OrderBook)
    → AllValues Live b.orders
    → pos 0 ≤ℤ q
    → Fits q
    → AllValues Live (settle_maker id q b).orders
unfolding settle_maker
settle_maker-Live id q b h p f = elim (Bool-cases (is_zero q)) [
  | inl z ↦ rw z (remove_order-Live id b h)
  | inr n ↦ rw n (update_qty-Live id q b h (not_zero q n p, f))
]

match_maker-Sound :
    (quantity : ℕ) (id : OrderId) (m : Matching)
    → is_zero m.taker.remaining_qty ≡ false
    → Sound quantity m
    → Sound quantity (match_maker id m)
unfolding match_maker fill_maker get_order filled
match_maker-Sound quantity id m z s = elim (Option-cases (lookup ℕ_discrete id m.book.orders)) [
  | inl absent ↦ rw absent s
  | inr (maker, e) ↦
      let taker_ok : Tradable m.taker.remaining_qty =
        (not_zero m.taker.remaining_qty z s.left.0, s.left.1) in
      let maker_ok : Live maker =
        AllValues-lookup ℕ_discrete Live id m.book.orders maker s.live e in
      let q = min m.taker.remaining_qty maker.remaining_qty in
      let facts = min-facts m.taker.remaining_qty maker.remaining_qty taker_ok maker_ok in
      let taker_left = sub_of_le m.taker.remaining_qty q taker_ok facts.0 facts.1 in
      let maker_left = sub_of_le maker.remaining_qty q maker_ok facts.0 facts.2 in
      rw e (record {
        live =
            settle_maker-Live id (sub maker.remaining_qty q) m.book s.live maker_left.1
              maker_left.2;
        left = (taker_left.1, taker_left.2);
        total = rw filled-append (omega (arith, s.total, taker_left.0));
        traded = AllTradable-append m.fills _ s.traded facts.0;
      })
]

match_ids-Sound :
    (quantity : ℕ) (ids : List OrderId) (m : Matching)
    → Sound quantity m
    → Sound quantity (match_ids ids m)
unfolding match_ids
match_ids-Sound quantity [] m s = s
match_ids-Sound quantity (id ∷ ids) m s = elim (Bool-cases (is_zero m.taker.remaining_qty)) [
  | inl z ↦ rw z s
  | inr n ↦
      rw n (match_ids-Sound quantity ids (match_maker id m) (match_maker-Sound quantity id m n s))
]

match_prices-Sound :
    (quantity : ℕ) (side : Side) (prices : List Decimal128) (m : Matching)
    → Sound quantity m
    → Sound quantity (match_prices side prices m)
unfolding match_prices
match_prices-Sound quantity side [] m s = s
match_prices-Sound quantity side (price ∷ prices) m s =
    elim (Bool-cases (is_zero m.taker.remaining_qty)) [
      | inl z ↦ rw z s
      | inr n ↦
          rw n (elim (Bool-cases (is_limit m.taker.order_type && better side m.taker.price price)) [
            | inl stop ↦ rw stop s
            | inr go ↦ rw go (
                match_prices-Sound quantity side prices _
                  (match_ids-Sound quantity (ids_at price (resting side m.book)) m s))
          ])
    ]

execute-Sound :
    (order : BookOrder) (b : OrderBook)
    → AllValues Live b.orders
    → (pos 0 ≤ℤ order.remaining_qty) × Fits order.remaining_qty
    → Sound (pos_part order.remaining_qty) (execute order b)
unfolding execute match_against_asks match_against_bids filled
execute-Sound order b h l =
    let start : Sound (pos_part order.remaining_qty)
        (record { book = b; taker = order; fills = [] }) =
      record { live = h; left = l; total = omega (arith); traded = tt } in
    elim order.side
      as (λ side. Sound (pos_part order.remaining_qty) (elim side [
        | buy ↦ match_against_asks (record { book = b; taker = order; fills = [] })
        | sell ↦ match_against_bids (record { book = b; taker = order; fills = [] })
      ])) [ buy ↦ match_prices-Sound _ sell _ _ start | sell ↦ match_prices-Sound _ buy _ _ start ]

-- Matching an order with a quantity that is not negative against a book whose orders have positive
-- quantities: the fills have positive quantities, these and what is left of the order add up to the
-- order's quantity, what is left is not negative, and the orders left on the book have positive
-- quantities. A rejected order has no fills.
pub match_order-fills :
    (order : BookOrder) (b : OrderBook)
    → AllValues Live b.orders
    → (pos 0 ≤ℤ order.remaining_qty) × Fits order.remaining_qty
    → let r = match_order order b in
      (filled r.0.fills + pos_part r.1.remaining_qty ≡ pos_part order.remaining_qty)
      × AllTradable r.0.fills
      × (pos 0 ≤ℤ r.1.remaining_qty)
      × AllValues Live r.2.orders
      × ((r.0.rejected ≡ false) ⊎ (r.0.fills ≡ []))
unfolding match_order filled
match_order-fills order b h l =
    let s = execute-Sound order b h l in
    elim (Bool-cases (is_post_only order.time_in_force)) [
      | inl post ↦ rw post (omega arith, tt, l.0, h, inr refl)
      | inr no_post ↦
          rw no_post
            (elim (Bool-cases
              (is_fok order.time_in_force && lt_dec (fok_available order b) order.remaining_qty)) [
                | inl short ↦ rw short (omega arith, tt, l.0, h, inr refl)
                | inr enough ↦ rw enough (s.total, s.traded, s.left.0, s.live, inl refl)
              ])
    ]
