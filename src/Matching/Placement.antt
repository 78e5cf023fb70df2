-- ===== src/Matching/Placement.antt =====
-- Placing an order on the book and taking it off, orderbook.rs.
use native.Mathlib.Decide.{ℕ_discrete}
use mathlib.Core.Path.{subst}
use exg.Prelude.{
  ◌≡◌, ◌≢◌, ◌∙◌, ap, arith, Bool-cases, Option-cases, inl, inr, true, false, List, [], ◌∷◌, ◌++◌,
  refl, Option, none, some, ◌==◌, ==→eq, ==_refl,
}
use exg.Prelude.Lists.{AllOf}
use exg.Prelude.Assoc.{
  Assoc, lookup, get_or, upsert, lookup-upsert_self, remove-upsert, upsert-upsert,
}
use exg.Decimal.{Decimal128, bits, Fits, add, sub, eq_dec}
use exg.Decimal.Bits.{bits_laws, bits-injective, bits-lt, wrap-Fits}
use exg.Common.Error.{OrderId, UserId}
use exg.Common.Types.{Side, buy, sell}
use exg.Matching.Book.{
  BookOrder, PriceLevel, OrderBook, Levels, change_levels, insert_order, remove_order, better,
  place, withdraw_order, join_level, retain_others, is_nil, forget_user_order,
}

bits-sub-add : (t q : Decimal128) → bits (sub (add t q) q) ≡ bits t
bits-sub-add t q = omega (bits_laws, bits-lt t, bits-lt q)

sub-add : (t q : Decimal128) → Fits t → sub (add t q) q ≡ t
unfolding sub
sub-add t q h = bits-injective _ t (wrap-Fits _) h (bits-sub-add t q)

retain_others-fresh :
    (id : OrderId) (ids : List OrderId)
    → AllOf (λ i. i ≢ id) ids
    → retain_others id (ids ++ (id ∷ [])) ≡ ids
unfolding retain_others
retain_others-fresh id [] h = rw ==_refl refl
retain_others-fresh id (i ∷ ids) h = elim (Bool-cases (i == id)) [
  | inl same ↦ elim (h.0 (==→eq i id same)) [ ]
  | inr other ↦ rw other (ap (λ (r : List OrderId). i ∷ r) (retain_others-fresh id ids h.1))
]

-- A list of orders that is kept only while it is not empty, without the order `id`.
abbrev pub Kept : OrderId → List OrderId → Type 0
Kept id ids = (is_nil ids ≡ false) × AllOf (λ i. i ≢ id) ids

-- A level as the book keeps it, without the order `id`.
abbrev pub KeptLevel : OrderId → PriceLevel → Type 0
KeptLevel id l = Fits l.total_qty × Kept id l.orders

eq_dec_refl : (a : Decimal128) → eq_dec a a ≡ true
unfolding eq_dec
eq_dec_refl a = ground arith

withdraw_order-head :
    (price : Decimal128) (id : OrderId) (qty : Decimal128) (l : PriceLevel) (ls : Levels)
    (others : List OrderId)
    → eq_dec l.price price ≡ true
    → retain_others id l.orders ≡ others
    → is_nil others ≡ false
    → withdraw_order price id qty (l ∷ ls)
      ≡ record l { total_qty = sub l.total_qty qty; orders = others } ∷ ls
unfolding withdraw_order
withdraw_order-head price id qty l ls others same e more = rw (same, e, more) refl

withdraw_order-place :
    (side : Side) (price : Decimal128) (id : OrderId) (qty : Decimal128) (ls : Levels)
    → AllOf (KeptLevel id) ls
    → withdraw_order price id qty (place side price id qty ls) ≡ ls
unfolding place withdraw_order
withdraw_order-place side price id qty [] h =
    rw (eq_dec_refl price, retain_others-fresh id [] tt) refl
withdraw_order-place side price id qty (l ∷ ls) h = elim (Bool-cases (eq_dec l.price price)) [
  | inl same ↦ rw same (
      withdraw_order-head price id qty (join_level id qty l) ls l.orders same
        (retain_others-fresh id l.orders h.0.1.1) h.0.1.0
      ∙ ap (λ (t : Decimal128). record l { total_qty = t } ∷ ls) (sub-add l.total_qty qty h.0.0))
  | inr other ↦ rw other (elim (Bool-cases (better side price l.price)) [
    | inl first ↦ rw (first, eq_dec_refl price, retain_others-fresh id [] tt) refl
    | inr later ↦
        rw (later, other)
          (ap (λ (r : Levels). l ∷ r) (withdraw_order-place side price id qty ls h.1))
  ])
]

is_nil-append : (ids : List OrderId) (id : OrderId) → is_nil (ids ++ (id ∷ [])) ≡ false
is_nil-append [] id = refl
is_nil-append (i ∷ ids) id = refl

-- The entry of a user, where there is one, is kept and does not list the order `id`.
abbrev pub KeptUser : OrderId → Option (List OrderId) → Type 0
KeptUser id none = Unit
KeptUser id (some ids) = Kept id ids

push : OrderId → List OrderId → List OrderId
push id ids = ids ++ (id ∷ [])

forget_user_order-push :
    (user : UserId) (id : OrderId) (m : Assoc UserId (List OrderId))
    → KeptUser id (lookup ℕ_discrete user m)
    → forget_user_order user id (upsert ℕ_discrete user [] (λ ids. ids ++ (id ∷ [])) m) ≡ m
unfolding forget_user_order get_or
forget_user_order-push user id m h = elim (Option-cases (lookup ℕ_discrete user m)) [
  | inl absent ↦
      rw
        (
          lookup-upsert_self ℕ_discrete user [] (λ ids. ids ++ (id ∷ [])) m,
          absent,
          retain_others-fresh id [] tt,
        )
        (remove-upsert ℕ_discrete user [] _ m absent)
  | inr (ids, e) ↦
      let kept : Kept id ids = subst (KeptUser id) e h in
      rw
        (
          lookup-upsert_self ℕ_discrete user [] (λ ids. ids ++ (id ∷ [])) m,
          e,
          retain_others-fresh id ids kept.1,
          kept.0,
        )
        (upsert-upsert ℕ_discrete user [] [] ids _ (retain_others id) m e
          (retain_others-fresh id ids kept.1))
]

-- The order `id` of a user is not on the book, and the book keeps only levels and entries of users
-- that have orders.
pub record Free (id : OrderId) (user : UserId) (b : OrderBook) : Type 0 where
  pub unlisted : lookup ℕ_discrete id b.orders ≡ none
  pub bids : AllOf (KeptLevel id) b.bids
  pub asks : AllOf (KeptLevel id) b.asks
  pub user_orders : KeptUser id (lookup ℕ_discrete user b.user_orders)

restored :
    (side : Side) (order : BookOrder) (b : OrderBook)
    → Free order.order_id order.user_id b
    → let o : BookOrder = record order { side = side } in
      remove_order o.order_id (insert_order o b) ≡ (some o, b)
unfolding remove_order insert_order change_levels get_or
restored buy order b free =
    let o : BookOrder = record order { side = buy } in
    rw
      (
        lookup-upsert_self ℕ_discrete o.order_id o (λ _. o) b.orders,
        forget_user_order-push o.user_id o.order_id b.user_orders free.user_orders,
        remove-upsert ℕ_discrete o.order_id o (λ _. o) b.orders free.unlisted,
        withdraw_order-place buy o.price o.order_id o.remaining_qty b.bids free.bids,
      )
      refl
restored sell order b free =
    let o : BookOrder = record order { side = sell } in
    rw
      (
        lookup-upsert_self ℕ_discrete o.order_id o (λ _. o) b.orders,
        forget_user_order-push o.user_id o.order_id b.user_orders free.user_orders,
        remove-upsert ℕ_discrete o.order_id o (λ _. o) b.orders free.unlisted,
        withdraw_order-place sell o.price o.order_id o.remaining_qty b.asks free.asks,
      )
      refl

-- An order whose id is not on the book is placed and removed, where no level and no entry of its
-- user is empty and the totals of the levels are `i128` values: the removal returns the order, and
-- the book is as before, its levels, totals, queues and entries of users included.
pub remove_order-insert_order :
    (order : BookOrder) (b : OrderBook)
    → Free order.order_id order.user_id b
    → remove_order order.order_id (insert_order order b) ≡ (some order, b)
remove_order-insert_order order b free = restored order.side order b free
