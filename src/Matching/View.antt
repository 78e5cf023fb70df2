-- ===== src/Matching/View.antt =====
-- The book of crates/exg-matching-engine/src/orderbook.rs as a map from ids to orders.
use native.Mathlib.Decide.{ℕ_discrete}
use exg.Prelude.{
  ◌≡◌, ◌≢◌, refl, arith, false, Bool-cases, Option-cases, inl, inr, none, some, ◌==◌, ==→eq,
  if◌then◌else◌,
}
use exg.Prelude.Assoc.{
  lookup, lookup-remove_self, lookup-remove_ne, lookup-upsert_self, lookup-upsert_ne,
}
use exg.Common.Error.{OrderId}
use exg.Matching.Book.{BookOrder, OrderBook, insert_order, remove_order, get_order}
use exg.Matching.Fills.{change_levels-orders}

pub ne_of_test : (i id : OrderId) → (i == id) ≡ false → i ≢ id
ne_of_test i id h e = ground arith

pub get_order-remove_order :
    (i id : OrderId) (b : OrderBook)
    → get_order i (remove_order id b).1 ≡ (if i == id then none else get_order i b)
unfolding remove_order get_order
get_order-remove_order i id b = elim (Option-cases (lookup ℕ_discrete id b.orders)) [
  | inl absent ↦ elim (Bool-cases (i == id)) [
    | inl same ↦ rw (absent, same, ==→eq i id same) absent
    | inr other ↦ rw (absent, other) refl
  ]
  | inr (order, e) ↦ elim (Bool-cases (i == id)) [
    | inl same ↦
        rw (e, change_levels-orders order.side, same, ==→eq i id same)
          (lookup-remove_self ℕ_discrete id b.orders)
    | inr other ↦
        rw (e, change_levels-orders order.side, other)
          (lookup-remove_ne ℕ_discrete i id b.orders (ne_of_test i id other))
  ]
]

pub get_order-insert_order :
    (i : OrderId) (order : BookOrder) (b : OrderBook)
    → get_order i (insert_order order b)
      ≡ (if i == order.order_id then some order else get_order i b)
unfolding insert_order get_order
get_order-insert_order i order b = elim (Bool-cases (i == order.order_id)) [
  | inl same ↦
      rw (change_levels-orders order.side, same, ==→eq i order.order_id same)
        (lookup-upsert_self ℕ_discrete order.order_id order (λ _. order) b.orders)
  | inr other ↦
      rw (change_levels-orders order.side, other)
        (lookup-upsert_ne ℕ_discrete i order.order_id order (λ _. order) b.orders
          (ne_of_test i order.order_id other))
]

-- What a removal returns is what the map held.
pub remove_order-found : (id : OrderId) (b : OrderBook) → (remove_order id b).0 ≡ get_order id b
unfolding remove_order get_order
remove_order-found id b = elim (Option-cases (lookup ℕ_discrete id b.orders)) [
  | inl absent ↦ rw absent refl
  | inr (order, e) ↦ rw e refl
]

pub remove_order-absent :
    (id : OrderId) (b : OrderBook) → get_order id b ≡ none → remove_order id b ≡ (none, b)
unfolding remove_order get_order
remove_order-absent id b h = rw h refl
