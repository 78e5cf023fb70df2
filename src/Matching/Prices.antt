-- ===== src/Matching/Prices.antt =====
-- The prices of the orders on a level, through the changes of the book, orderbook.rs.
use native.Mathlib.Decide.{ℕ_discrete}
use mathlib.Core.Option.{some-injective}
use exg.Prelude.{
  ◌≡◌, ◌∙◌, sym, ap, refl, Bool-cases, Option-cases, inl, inr, List, [], ◌∷◌, some, Option, ◌==◌,
}
use exg.Prelude.Lists.{AllOf, AllOf-map}
use exg.Prelude.Assoc.{
  Assoc, lookup, get_or, or_else, upsert, remove, lookup-remove_self, lookup-remove_ne,
  lookup-upsert_self, lookup-upsert_ne,
}
use exg.Decimal.{Decimal128, is_zero, eq_dec}
use exg.Common.Error.{OrderId}
use exg.Common.Types.{Side, buy, sell}
use exg.Matching.Book.{
  BookOrder, OrderBook, Levels, change_levels, remove_order, update_qty, withdraw_order,
  reduce_level, retain_others, is_nil,
}
use exg.Matching.Matcher.{settle_maker}

abbrev pub Orders : Type 0
Orders = Assoc OrderId BookOrder

-- The orders with these ids, where they are on the book, have the price.
abbrev pub PricedAt : Decimal128 → List OrderId → Orders → Type 0
PricedAt price ids m =
    AllOf (λ id. (o : BookOrder) → lookup ℕ_discrete id m ≡ some o → o.price ≡ price) ids

-- The orders of each level have the price of the level.
abbrev pub LevelsPriced : Levels → Orders → Type 0
LevelsPriced ls m = AllOf (λ l. PricedAt l.price l.orders m) ls

abbrev pub Priced : OrderBook → Type 0
Priced b = LevelsPriced b.bids b.orders × LevelsPriced b.asks b.orders

-- Each order of `m'` is one of `m` at the same price.
abbrev pub SamePrices : Orders → Orders → Type 0
SamePrices m m' =
    (id : OrderId) (o : BookOrder)
    → lookup ℕ_discrete id m' ≡ some o
    → (o' : BookOrder) × (lookup ℕ_discrete id m ≡ some o') × (o.price ≡ o'.price)

pub PricedAt-SamePrices :
    (price : Decimal128) (ids : List OrderId) (m m' : Orders)
    → SamePrices m m'
    → PricedAt price ids m
    → PricedAt price ids m'
PricedAt-SamePrices price ids m m' same h =
    AllOf-map _ _ ids (λ id q o e. (same id o e).2 ∙ q (same id o e).0 (same id o e).1) h

LevelsPriced-SamePrices :
    (ls : Levels) (m m' : Orders) → SamePrices m m' → LevelsPriced ls m → LevelsPriced ls m'
LevelsPriced-SamePrices ls m m' same h =
    AllOf-map _ _ ls (λ l. PricedAt-SamePrices l.price l.orders m m' same) h

AllOf-retain_others :
    (P : OrderId → Type 0) (id : OrderId) (ids : List OrderId)
    → AllOf P ids
    → AllOf P (retain_others id ids)
unfolding retain_others
AllOf-retain_others P id [] h = tt
AllOf-retain_others P id (i ∷ ids) h = elim (Bool-cases (i == id)) [
  | inl same ↦ rw same (AllOf-retain_others P id ids h.1)
  | inr other ↦ rw other (h.0, AllOf-retain_others P id ids h.1)
]

LevelsPriced-withdraw_order :
    (price : Decimal128) (id : OrderId) (qty : Decimal128) (ls : Levels) (m : Orders)
    → LevelsPriced ls m
    → LevelsPriced (withdraw_order price id qty ls) m
unfolding withdraw_order
LevelsPriced-withdraw_order price id qty [] m h = tt
LevelsPriced-withdraw_order price id qty (l ∷ ls) m h = elim (Bool-cases (eq_dec l.price price)) [
  | inr other ↦ rw other (h.0, LevelsPriced-withdraw_order price id qty ls m h.1)
  | inl same ↦ rw same (elim (Bool-cases (is_nil (retain_others id l.orders))) [
    | inl last ↦ rw last h.1
    | inr more ↦ rw more (AllOf-retain_others _ id l.orders h.0, h.1)
  ])
]

LevelsPriced-reduce_level :
    (price diff : Decimal128) (ls : Levels) (m : Orders)
    → LevelsPriced ls m
    → LevelsPriced (reduce_level price diff ls) m
unfolding reduce_level
LevelsPriced-reduce_level price diff [] m h = tt
LevelsPriced-reduce_level price diff (l ∷ ls) m h = elim (Bool-cases (eq_dec l.price price)) [
  | inl same ↦ rw same h
  | inr other ↦ rw other (h.0, LevelsPriced-reduce_level price diff ls m h.1)
]

same_refl : (m : Orders) → SamePrices m m
same_refl m id o e = (o, e, refl)

SamePrices-remove : (id : OrderId) (m : Orders) → SamePrices m (remove ℕ_discrete id m)
SamePrices-remove id m i o e = elim (ℕ_discrete i id) [
  | yes p ↦ cc (lookup-remove_self ℕ_discrete id m, p, e)
  | no n ↦ (o, sym (lookup-remove_ne ℕ_discrete i id m n) ∙ e, refl)
]

price_of :
    (order : BookOrder) (q : Decimal128) (m : Orders) (id : OrderId) (o : BookOrder)
    → lookup ℕ_discrete id m ≡ some order
    → lookup ℕ_discrete id (upsert ℕ_discrete id order (λ x. record x { remaining_qty = q }) m)
      ≡ some o
    → o.price ≡ order.price
unfolding get_or
price_of order q m id o h e =
    ap (λ x. x.price)
      (some-injective _ _ (
        sym e
        ∙ (lookup-upsert_self ℕ_discrete id order (λ x. record x { remaining_qty = q }) m
            ∙ ap (λ (x : Option BookOrder). some (record (or_else x order) { remaining_qty = q }))
                h)))

SamePrices-upsert :
    (id : OrderId) (order : BookOrder) (q : Decimal128) (m : Orders)
    → lookup ℕ_discrete id m ≡ some order
    → SamePrices m (upsert ℕ_discrete id order (λ o. record o { remaining_qty = q }) m)
unfolding get_or
SamePrices-upsert id order q m h i o e = elim (ℕ_discrete i id) [
  | no n ↦ (o, sym (lookup-upsert_ne ℕ_discrete i id order _ m n) ∙ e, refl)
  | yes p ↦ (
    order,
    ap (λ k. lookup ℕ_discrete k m) p ∙ h,
    price_of order q m id o h (
        ap
          (λ k.
            lookup ℕ_discrete k
              (upsert ℕ_discrete id order (λ x. record x { remaining_qty = q }) m))
          (sym p)
        ∙ e),
  )
]

-- A change of the book that leaves the orders and the levels their prices.
abbrev pub KeepsPrices : OrderBook → OrderBook → Type 0
KeepsPrices b b' = SamePrices b.orders b'.orders × Priced b'

change_levels-prices :
    (side : Side) (f : Levels → Levels) (b b' : OrderBook)
    → SamePrices b.orders b'.orders
    → ((ls : Levels) → LevelsPriced ls b'.orders → LevelsPriced (f ls) b'.orders)
    → LevelsPriced b'.bids b.orders × LevelsPriced b'.asks b.orders
    → KeepsPrices b (change_levels side f b')
unfolding change_levels
change_levels-prices side f b b' same k h =
    let bids = LevelsPriced-SamePrices b'.bids b.orders b'.orders same h.0 in
    let asks = LevelsPriced-SamePrices b'.asks b.orders b'.orders same h.1 in
    elim side as (λ side. KeepsPrices b (change_levels side f b')) [
      | buy ↦ (same, (k b'.bids bids, asks))
      | sell ↦ (same, (bids, k b'.asks asks))
    ]

remove_order-prices :
    (id : OrderId) (b : OrderBook) → Priced b → KeepsPrices b (remove_order id b).1
unfolding remove_order
remove_order-prices id b h = elim (Option-cases (lookup ℕ_discrete id b.orders)) [
  | inl absent ↦ rw absent (same_refl b.orders, h)
  | inr (order, e) ↦ rw e (
      change_levels-prices order.side _ b _ (SamePrices-remove id b.orders)
        (λ ls. LevelsPriced-withdraw_order order.price id order.remaining_qty ls _) h)
]

update_qty-prices :
    (id : OrderId) (q : Decimal128) (b : OrderBook) → Priced b → KeepsPrices b (update_qty id q b)
unfolding update_qty
update_qty-prices id q b h = elim (Option-cases (lookup ℕ_discrete id b.orders)) [
  | inl absent ↦ rw absent (same_refl b.orders, h)
  | inr (order, e) ↦ rw e (
      change_levels-prices order.side _ b _ (SamePrices-upsert id order q b.orders e)
        (λ ls. LevelsPriced-reduce_level order.price _ ls _) h)
]

pub settle_maker-prices :
    (id : OrderId) (q : Decimal128) (b : OrderBook) → Priced b → KeepsPrices b (settle_maker id q b)
unfolding settle_maker
settle_maker-prices id q b h = elim (Bool-cases (is_zero q)) [
  | inl z ↦ rw z (remove_order-prices id b h)
  | inr n ↦ rw n (update_qty-prices id q b h)
]
