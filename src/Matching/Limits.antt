-- ===== src/Matching/Limits.antt =====
-- The fills of a limit order, crates/exg-matching-engine/src/matcher.rs, and its limit.
use native.Mathlib.Decide.{ℕ_discrete}
use mathlib.Core.Path.{subst}
use exg.Prelude.{
  ◌≡◌, ◌∙◌, sym, ap, arith, Bool-cases, Option-cases, inl, inr, true, false, List, [], ◌∷◌, ◌&&◌,
  refl,
}
use exg.Prelude.Lists.{AllOf, AllOf-append}
use exg.Prelude.Assoc.{lookup}
use exg.Decimal.{Decimal128, is_zero, lt_dec, eq_dec, min, sub}
use exg.Common.Error.{OrderId}
use exg.Common.Types.{Side, buy, sell, opposite, is_limit}
use exg.Matching.Book.{BookOrder, OrderBook, Levels, get_order, resting, better}
use exg.Matching.Matcher.{
  Fill, Matching, fill_maker, match_maker, match_ids, match_prices, ids_at, match_against_asks,
  match_against_bids, execute, is_post_only, is_fok, fok_available, match_order,
}
use exg.Matching.Prices.{Priced, PricedAt, LevelsPriced, PricedAt-SamePrices, settle_maker-prices}

-- A price on the side of the makers that is not beyond the limit.
abbrev pub Within : Side → Decimal128 → Fill → Type 0
Within side limit f = better side limit f.price ≡ false

record Limited (side : Side) (limit : Decimal128) (m : Matching) : Type 0 where
  priced : Priced m.book
  price : m.taker.price ≡ limit
  kind : is_limit m.taker.order_type ≡ true
  within : AllOf (Within side limit) m.fills

eq_dec-eq : (a b : Decimal128) → eq_dec a b ≡ true → a ≡ b
unfolding eq_dec
eq_dec-eq a b h = ground arith

ids_at-PricedAt :
    (price : Decimal128) (b : OrderBook) (ls : Levels)
    → LevelsPriced ls b.orders
    → PricedAt price (ids_at price ls) b.orders
unfolding ids_at
ids_at-PricedAt price b [] h = tt
ids_at-PricedAt price b (l ∷ ls) h = elim (Bool-cases (eq_dec l.price price)) [
  | inl same ↦
      rw same (subst (λ p. PricedAt p l.orders b.orders) (eq_dec-eq l.price price same) h.0)
  | inr other ↦ rw other (ids_at-PricedAt price b ls h.1)
]

resting-LevelsPriced :
    (side : Side) (b : OrderBook) → Priced b → LevelsPriced (resting side b) b.orders
unfolding resting
resting-LevelsPriced buy b h = h.0
resting-LevelsPriced sell b h = h.1

module _ (side : Side) (limit : Decimal128) where
  match_maker-Limited :
      (price : Decimal128) (id : OrderId) (ids : List OrderId) (m : Matching)
      → better side limit price ≡ false
      → PricedAt price (id ∷ ids) m.book.orders
      → Limited side limit m
      → Limited side limit (match_maker id m) × PricedAt price ids (match_maker id m).book.orders
  unfolding match_maker fill_maker get_order
  match_maker-Limited price id ids m ok at s =
      elim (Option-cases (lookup ℕ_discrete id m.book.orders)) [
        | inl absent ↦ rw absent (s, at.1)
        | inr (maker, e) ↦
            let kept =
              settle_maker-prices id
                (sub maker.remaining_qty (min m.taker.remaining_qty maker.remaining_qty)) m.book
                s.priced in
            rw e (
              record {
                priced = kept.1;
                price = s.price;
                kind = s.kind;
                within =
                    AllOf-append (Within side limit) m.fills _ s.within
                      (ap (better side limit) (at.0 maker e) ∙ ok);
              },
              PricedAt-SamePrices price ids m.book.orders _ kept.0 at.1,
            )
      ]

  match_ids-Limited :
      (price : Decimal128) (ids : List OrderId) (m : Matching)
      → better side limit price ≡ false
      → PricedAt price ids m.book.orders
      → Limited side limit m
      → Limited side limit (match_ids ids m)
  unfolding match_ids
  match_ids-Limited price [] m ok at s = s
  match_ids-Limited price (id ∷ ids) m ok at s = elim (Bool-cases (is_zero m.taker.remaining_qty)) [
    | inl z ↦ rw z s
    | inr n ↦ rw n (
        let next = match_maker-Limited price id ids m ok at s in
        match_ids-Limited price ids (match_maker id m) ok next.1 next.0)
  ]

  match_prices-Limited :
      (prices : List Decimal128) (m : Matching)
      → Limited side limit m
      → Limited side limit (match_prices side prices m)
  unfolding match_prices
  match_prices-Limited [] m s = s
  match_prices-Limited (price ∷ prices) m s = elim (Bool-cases (is_zero m.taker.remaining_qty)) [
    | inl z ↦ rw z s
    | inr n ↦
        rw (n, s.kind)
          (elim (Bool-cases (better side m.taker.price price)) [
            | inl stop ↦ rw stop s
            | inr go ↦ rw go (
                match_prices-Limited prices _ (
                  match_ids-Limited price (ids_at price (resting side m.book)) m
                    (ap (λ p. better side p price) (sym s.price) ∙ go)
                    (ids_at-PricedAt price m.book (resting side m.book)
                      (resting-LevelsPriced side m.book s.priced))
                    s))
          ])
  ]

execute-Limited :
    (order : BookOrder) (b : OrderBook)
    → Priced b
    → is_limit order.order_type ≡ true
    → AllOf (Within (opposite order.side) order.price) (execute order b).fills
unfolding execute match_against_asks match_against_bids opposite
execute-Limited order b h k =
    let start : Matching = record { book = b; taker = order; fills = [] } in
    elim order.side
      as (λ side.
        AllOf (Within (opposite side) order.price)
          (elim side as (λ s. Matching) [
            | buy ↦ match_against_asks start
            | sell ↦ match_against_bids start
          ]).fills) [
            | buy ↦
                (match_prices-Limited sell order.price _ start
                  (record { priced = h; price = refl; kind = k; within = tt })).within
            | sell ↦
                (match_prices-Limited buy order.price _ start
                  (record { priced = h; price = refl; kind = k; within = tt })).within
          ]

-- On a book whose levels hold orders of the level's price, every fill of a limit order is at a
-- price no higher than the limit of a buy and no lower than that of a sell.
pub match_order-limit :
    (order : BookOrder) (b : OrderBook)
    → Priced b
    → is_limit order.order_type ≡ true
    → AllOf
        (λ f. better (opposite order.side) order.price f.price ≡ false)
        (match_order order b).0.fills
unfolding match_order
match_order-limit order b h k = elim (Bool-cases (is_post_only order.time_in_force)) [
  | inl post ↦ rw post tt
  | inr no_post ↦
      rw no_post
        (elim (Bool-cases
          (is_fok order.time_in_force && lt_dec (fok_available order b) order.remaining_qty)) [
            | inl short ↦ rw short tt
            | inr enough ↦ rw enough (execute-Limited order b h k)
          ])
]
