-- ===== src/Matching/Tests.antt =====
-- The theorems on crates/exg-matching-engine, applied to a small book.
use mathlib.Core.Option.{some-injective}
use native.Mathlib.Decide.{ℕ_discrete}
use exg.Prelude.{
  ◌+◌, ◌≡◌, ◌⊎◌, refl, sym, ap, arith, false, none, some, [], ◌∷◌, pos, pos_part, ◌≤ℤ◌,
}
use exg.Prelude.Lists.{AllOf}
use exg.Prelude.Assoc.{AllValues, lookup}
use exg.Decimal.{Decimal128}
use exg.Common.Error.{OrderId, UserId}
use exg.Common.Types.{Side, buy, sell, opposite, OrderType, TimeInForce, is_limit}
use exg.Matching.Book.{BookOrder, OrderBook, better, insert_order, remove_order}
use exg.Matching.Matcher.{match_order}
use exg.Matching.Quantities.{Live, filled, AllTradable}
use exg.Matching.Fills.{match_order-fills}
use exg.Matching.Prices.{Priced}
use exg.Matching.Limits.{match_order-limit}
use exg.Matching.Placement.{remove_order-insert_order}

abbrev limit_order : OrderId → UserId → Side → Decimal128 → Decimal128 → BookOrder
limit_order order_id user_id side price qty = record {
  order_id = order_id;
  user_id = user_id;
  symbol = 1;
  side = side;
  price = price;
  remaining_qty = qty;
  original_qty = qty;
  order_type = OrderType.limit;
  time_in_force = TimeInForce.gtc;
  is_reduce_only = false;
  timestamp = 0;
  visible_qty = none;
  hidden_qty = pos 0;
  trailing_delta = none;
  trailing_peak_price = none;
  expire_time = none;
  client_order_id = none;
  stop_price = none;
}

-- two asks of 5, at 100 and 101
abbrev market : OrderBook
market = record {
  symbol = 1;
  bids = [];
  asks =
      record { price = pos 100; total_qty = pos 5; orders = 1 ∷ [] }
      ∷ record { price = pos 101; total_qty = pos 5; orders = 2 ∷ [] }
      ∷ [];
  orders =
      (1, limit_order 1 11 sell (pos 100) (pos 5))
      ∷ (2, limit_order 2 12 sell (pos 101) (pos 5))
      ∷ [];
  user_orders = (11, 1 ∷ []) ∷ (12, 2 ∷ []) ∷ [];
}

abbrev taker : BookOrder
taker = limit_order 9 20 buy (pos 101) (pos 7)

match_order-fills_example :
    let r = match_order taker market in
    (filled r.0.fills + pos_part r.1.remaining_qty ≡ 7)
    × AllTradable r.0.fills
    × (pos 0 ≤ℤ r.1.remaining_qty)
    × AllValues Live r.2.orders
    × ((r.0.rejected ≡ false) ⊎ (r.0.fills ≡ []))
match_order-fills_example =
    match_order-fills taker market
      ((omega arith, (omega arith, omega arith)), ((omega arith, (omega arith, omega arith)), tt))
      (omega arith, (omega arith, omega arith))

market-Priced : Priced market
unfolding lookup ℕ_discrete
market-Priced = (
  tt,
  (
    (λ o e. ap (λ (x : BookOrder). x.price) (sym (some-injective _ _ e)), tt),
    ((λ o e. ap (λ (x : BookOrder). x.price) (sym (some-injective _ _ e)), tt), tt),
  ),
)

match_order-limit_example :
    AllOf (λ f. better (opposite buy) (pos 101) f.price ≡ false) (match_order taker market).0.fills
unfolding is_limit
match_order-limit_example = match_order-limit taker market market-Priced refl

remove_order-insert_order_example :
    remove_order 9 (insert_order taker market) ≡ (some taker, market)
unfolding lookup ℕ_discrete
remove_order-insert_order_example = remove_order-insert_order taker market (record {
  unlisted = refl;
  bids = tt;
  asks = (
    ((omega arith, omega arith), (refl, (λ e. omega (arith, e), tt))),
    (((omega arith, omega arith), (refl, (λ e. omega (arith, e), tt))), tt),
  );
  user_orders = tt;
})
