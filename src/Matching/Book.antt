-- ===== src/Matching/Book.antt =====
-- The order book of crates/exg-matching-engine/src/orderbook.rs.
-- A `BTreeMap` of price levels is the list of its levels in the order of its keys: the key of a
-- level is its price. A hash map is an association list.
use native.Mathlib.Decide.{ℕ_discrete}
use exg.Prelude.{
  ℕ, ◌==◌, Bool, true, false, Option, none, some, List, [], ◌∷◌, ◌++◌, map, if◌then◌else◌,
}
use exg.Prelude.Lists.{length, take}
use exg.Prelude.Assoc.{Assoc, lookup, get_or, upsert, remove}
use exg.Decimal.{Decimal128, zero_dec, add, sub, sum, lt_dec, eq_dec}
use exg.Common.Error.{OrderId, UserId, SymbolId, UnixMicros}
use exg.Common.Types.{Side, buy, sell, OrderType, TimeInForce}

pub record BookOrder : Type 0 where
  pub order_id : OrderId
  pub user_id : UserId
  pub symbol : SymbolId
  pub side : Side
  pub price : Decimal128
  pub remaining_qty : Decimal128
  pub original_qty : Decimal128
  pub order_type : OrderType
  pub time_in_force : TimeInForce
  pub is_reduce_only : Bool
  pub timestamp : UnixMicros
  pub visible_qty : Option Decimal128
  pub hidden_qty : Decimal128
  pub trailing_delta : Option Decimal128
  pub trailing_peak_price : Option Decimal128
  pub expire_time : Option UnixMicros
  pub client_order_id : Option ℕ
  pub stop_price : Option Decimal128

pub record PriceLevel : Type 0 where
  pub price : Decimal128
  pub total_qty : Decimal128
  pub orders : List OrderId

abbrev pub Levels : Type 0
Levels = List PriceLevel

pub record OrderBook : Type 0 where
  pub symbol : SymbolId
  pub bids : Levels
  pub asks : Levels
  pub orders : Assoc OrderId BookOrder
  pub user_orders : Assoc UserId (List OrderId)

-- `OrderBook::new`
abbrev pub new_book : SymbolId → OrderBook
new_book symbol = record { symbol = symbol; bids = []; asks = []; orders = []; user_orders = [] }

-- The order of the levels of a side: bids from the highest price (`Reverse`), asks from the lowest.
unfoldable pub better : Side → Decimal128 → Decimal128 → Bool
better buy a b = lt_dec b a
better sell a b = lt_dec a b

-- The levels on which the orders of a side rest.
unfoldable pub resting : Side → OrderBook → Levels
resting buy b = b.bids
resting sell b = b.asks

unfoldable pub change_levels : Side → (Levels → Levels) → OrderBook → OrderBook
change_levels buy f b = record b { bids = f b.bids }
change_levels sell f b = record b { asks = f b.asks }

-- `retain(|&id| id != order_id)`
unfoldable pub retain_others : OrderId → List OrderId → List OrderId
retain_others order_id [] = []
retain_others order_id (id ∷ ids) =
    let rest = retain_others order_id ids in if id == order_id then rest else id ∷ rest

abbrev pub is_nil : List OrderId → Bool
is_nil [] = true
is_nil (_ ∷ _) = false

-- A level with an order pushed to its end.
abbrev pub join_level : OrderId → Decimal128 → PriceLevel → PriceLevel
join_level order_id qty l = record l {
  total_qty = add l.total_qty qty;
  orders = l.orders ++ (order_id ∷ []);
}

-- `join_level` on `entry(price).or_insert_with(..)`.
unfoldable pub place : Side → Decimal128 → OrderId → Decimal128 → Levels → Levels
place side price order_id qty [] =
    join_level order_id qty (record { price = price; total_qty = zero_dec; orders = [] }) ∷ []
place side price order_id qty (l ∷ ls) =
    let rest = place side price order_id qty ls in
    if eq_dec l.price price
    then join_level order_id qty l ∷ ls
    else if better side price l.price
    then join_level order_id qty (record { price = price; total_qty = zero_dec; orders = [] })
      ∷ l
      ∷ ls
    else l ∷ rest

unfoldable pub insert_order : BookOrder → OrderBook → OrderBook
insert_order order b =
    change_levels order.side (place order.side order.price order.order_id order.remaining_qty)
      (record b {
        orders = upsert ℕ_discrete order.order_id order (λ _. order) b.orders;
        user_orders =
            upsert ℕ_discrete order.user_id [] (λ ids. ids ++ (order.order_id ∷ [])) b.user_orders;
      })

-- The level of a price without an order; the level goes with its last order.
unfoldable pub withdraw_order : Decimal128 → OrderId → Decimal128 → Levels → Levels
withdraw_order price order_id qty [] = []
withdraw_order price order_id qty (l ∷ ls) =
    let rest = withdraw_order price order_id qty ls in
    let others = retain_others order_id l.orders in
    if eq_dec l.price price
    then (if is_nil others
        then ls
        else record l { total_qty = sub l.total_qty qty; orders = others } ∷ ls)
    else l ∷ rest

-- The entry that a user was found to have, without an order; it goes with the last order.
unfoldable pub forget_found :
    UserId
    → OrderId
    → Option (List OrderId)
    → Assoc UserId (List OrderId)
    → Assoc UserId (List OrderId)
forget_found user_id order_id none m = m
forget_found user_id order_id (some ids) m =
    if is_nil (retain_others order_id ids)
    then remove ℕ_discrete user_id m
    else upsert ℕ_discrete user_id [] (retain_others order_id) m

-- `user_orders` without an order of a user.
unfoldable pub forget_user_order :
    UserId → OrderId → Assoc UserId (List OrderId) → Assoc UserId (List OrderId)
unfolding forget_found
forget_user_order user_id order_id m = forget_found user_id order_id (lookup ℕ_discrete user_id m) m

-- `orders` and the price levels without an order that is on the book.
abbrev pub take_off : OrderId → BookOrder → OrderBook → OrderBook
take_off order_id order b =
    change_levels order.side (withdraw_order order.price order_id order.remaining_qty)
      (record b { orders = remove ℕ_discrete order_id b.orders })

-- An order that was looked up comes off the book.
unfoldable pub remove_found : OrderId → Option BookOrder → OrderBook → Option BookOrder × OrderBook
remove_found order_id none b = (none, b)
remove_found order_id (some order) b = (
  some order,
  take_off order_id order
      (record b { user_orders = forget_user_order order.user_id order_id b.user_orders }),
)

unfoldable pub remove_order : OrderId → OrderBook → Option BookOrder × OrderBook
unfolding remove_found
remove_order order_id b = remove_found order_id (lookup ℕ_discrete order_id b.orders) b

unfoldable pub get_order : OrderId → OrderBook → Option BookOrder
get_order order_id b = lookup ℕ_discrete order_id b.orders

unfoldable pub get_user_orders : UserId → OrderBook → List OrderId
get_user_orders user_id b = get_or ℕ_discrete user_id [] b.user_orders

-- The orders of `order_ids` that are on the book come off it.
unfoldable pub cancel_each : List OrderId → OrderBook → List BookOrder × OrderBook
cancel_each [] b = ([], b)
cancel_each (order_id ∷ ids) b = elim (lookup ℕ_discrete order_id b.orders) [
  | none ↦ cancel_each ids b
  | some order ↦ let rest = cancel_each ids (take_off order_id order b) in (order ∷ rest.0, rest.1)
]

unfoldable pub cancel_all_user_orders : UserId → OrderBook → List BookOrder × OrderBook
cancel_all_user_orders user_id b = elim (lookup ℕ_discrete user_id b.user_orders) [
  | none ↦ ([], b)
  | some ids ↦ cancel_each ids (record b { user_orders = remove ℕ_discrete user_id b.user_orders })
]

abbrev pub first_price : Levels → Option Decimal128
first_price [] = none
first_price (l ∷ ls) = some l.price

unfoldable pub best_bid : OrderBook → Option Decimal128
best_bid b = first_price b.bids

unfoldable pub best_ask : OrderBook → Option Decimal128
best_ask b = first_price b.asks

abbrev pub DepthLevel : Type 0
DepthLevel = Decimal128 × Decimal128

unfoldable pub depth : ℕ → OrderBook → List DepthLevel × List DepthLevel
depth levels b = (
  map (λ l. (l.price, l.total_qty)) (take levels b.bids),
  map (λ l. (l.price, l.total_qty)) (take levels b.asks),
)

-- A level whose total loses `diff`.
unfoldable pub reduce_level : Decimal128 → Decimal128 → Levels → Levels
reduce_level price diff [] = []
reduce_level price diff (l ∷ ls) =
    let rest = reduce_level price diff ls in
    if eq_dec l.price price then record l { total_qty = sub l.total_qty diff } ∷ ls else l ∷ rest

unfoldable pub update_found : OrderId → Decimal128 → Option BookOrder → OrderBook → OrderBook
update_found order_id new_remaining none b = b
update_found order_id new_remaining (some order) b =
    change_levels order.side (reduce_level order.price (sub order.remaining_qty new_remaining))
      (record b {
        orders =
            upsert ℕ_discrete order_id order (λ o. record o { remaining_qty = new_remaining })
              b.orders;
      })

unfoldable pub update_qty : OrderId → Decimal128 → OrderBook → OrderBook
unfolding update_found
update_qty order_id new_remaining b =
    update_found order_id new_remaining (lookup ℕ_discrete order_id b.orders) b

unfoldable pub order_count : OrderBook → ℕ
order_count b = length b.orders

unfoldable pub is_empty : OrderBook → Bool
is_empty b = length b.orders == 0

-- The totals of the levels from the best one to the first beyond the limit.
unfoldable pub reachable_qty : Side → Decimal128 → Levels → Decimal128 → Decimal128
reachable_qty side limit_price [] acc = acc
reachable_qty side limit_price (l ∷ ls) acc =
    let rest = reachable_qty side limit_price ls (add acc l.total_qty) in
    if better side limit_price l.price then acc else rest

-- `side` is the taker's.
unfoldable pub available_qty_at_price : Side → Decimal128 → OrderBook → Decimal128
available_qty_at_price buy limit_price b = reachable_qty sell limit_price b.asks zero_dec
available_qty_at_price sell limit_price b = reachable_qty buy limit_price b.bids zero_dec

unfoldable pub total_opposite_qty : Side → OrderBook → Decimal128
total_opposite_qty buy b = sum (map (λ l. l.total_qty) b.asks) zero_dec
total_opposite_qty sell b = sum (map (λ l. l.total_qty) b.bids) zero_dec
