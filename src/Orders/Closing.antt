-- ===== src/Orders/Closing.antt =====
-- The loop of `cancel_user_symbol_orders`, crates/exg-order-service/src/service.rs.
use mathlib.Core.Option.{some-ne-none}
use native.Mathlib.Decide.{ℕ_discrete}
use exg.Prelude.{
  ◌<◌, ==_refl, ◌≡◌, ◌≢◌, refl, sym, ap, ◌∙◌, Bool-cases, Option-cases, inl, inr, Option, none,
  some, List, [], ◌∷◌, arith,
}
use exg.Common.Error.{OrderId, UserId, UnixMicros}
use exg.Common.Types.{is_terminal}
use exg.Common.Types as Types
use exg.Orders.Record.{Order}
use exg.Orders.Service.{
  OrderService, get_order, move_to_completed, close_known, cancel_one, cancel_listed, cancel_ids,
  time_of,
}
use exg.Orders.Lookups.{
  get_order-set_order_ne, get_order-move_to_completed_self, get_order-move_to_completed_ne,
}
use exg.Orders.Index.{count}
use exg.Orders.Consistent.{Consistent, closed-Consistent}

-- Every id of some ids that names an order names one of the user.
abbrev pub OwnIds : UserId → List OrderId → OrderService → Type 0
OwnIds user_id ids s =
    (id : OrderId) (o : Order) → 0 < count id ids → get_order id s ≡ some o → o.user_id ≡ user_id

module _ (user_id : UserId) (now : UnixMicros) where
  cancel_one_other :
      (id id' : OrderId) (s : OrderService)
      → id' ≢ id
      → get_order id' (cancel_one user_id now id s) ≡ get_order id' s
  unfolding cancel_one
  cancel_one_other id id' s other =
      get_order-move_to_completed_ne id id' user_id _ other ∙ kept (get_order id s)
    where
      kept :
          (found : Option Order)
          → get_order id' (close_known id Types.canceled now found s) ≡ get_order id' s
      kept none = refl
      kept (some o) = elim (Bool-cases (is_terminal o.status)) [
        | inl over ↦ rw over refl
        | inr live ↦ rw live (get_order-set_order_ne id id' _ s other)
      ]

  cancel_one_self :
      (id : OrderId) (s : OrderService) → get_order id (cancel_one user_id now id s) ≡ none
  unfolding cancel_one
  cancel_one_self id s = get_order-move_to_completed_self id user_id _

  move_to_completed_none :
      (id : OrderId) (s : OrderService) → get_order id s ≡ none → move_to_completed id user_id s ≡ s
  unfolding move_to_completed
  move_to_completed_none id s absent = rw absent refl

  cancel_one-Consistent :
      (id : OrderId) (s : OrderService)
      → ((o : Order) → get_order id s ≡ some o → o.user_id ≡ user_id)
      → Consistent s
      → Consistent (cancel_one user_id now id s)
  unfolding cancel_one
  cancel_one-Consistent id s own h = elim (Option-cases (get_order id s)) [
    | inl absent ↦ rw (absent, move_to_completed_none id s absent) h
    | inr (o, found) ↦
        rw (found, h.1 id o found)
          (closed-Consistent id o (record o { status = Types.canceled; updated_at = now }) s found
            (refl, refl, refl) h user_id (own o found))
  ]

  later :
      (x : OrderId) (xs : List OrderId) (s : OrderService)
      → OwnIds user_id (x ∷ xs) s
      → OwnIds user_id xs (cancel_one user_id now x s)
  later x xs s own id o c found = elim (ℕ_discrete id x) [
    | yes same ↦ absurd (
        some-ne-none o (
          sym found
          ∙ ap (λ i. get_order i (cancel_one user_id now x s)) same
          ∙ cancel_one_self x s))
    | no other ↦ own id o (omega (arith, c)) (sym (cancel_one_other x id s other) ∙ found)
  ]

  -- The orders of the ids are gone, and no other is touched.
  cancel_listed_exact :
      (ids : List OrderId) (s : OrderService)
      → Consistent s
      → OwnIds user_id ids s
      → Consistent (cancel_listed user_id now ids s)
        × ((id : OrderId)
            → 0 < count id ids
            → get_order id (cancel_listed user_id now ids s) ≡ none)
        × ((id : OrderId)
            → count id ids ≡ 0
            → get_order id (cancel_listed user_id now ids s) ≡ get_order id s)
  unfolding cancel_listed
  cancel_listed_exact [] s h own = (h, λ id c. absurd (omega (arith, c)), λ id c. refl)
  cancel_listed_exact (x ∷ xs) s h own =
      let s' = cancel_one user_id now x s in
      let (kept, gone, same) =
        cancel_listed_exact xs s'
          (cancel_one-Consistent x s (λ o found. own x o (rw (==_refl x) (omega arith)) found) h)
          (later x xs s own) in
      (
        kept,
        λ id c. elim (ℕ_discrete (count id xs) 0) [
          | yes over ↦ elim (ℕ_discrete id x) [
            | yes first ↦
                same id over
                ∙ ap (λ i. get_order i (cancel_one user_id now x s)) first
                ∙ cancel_one_self x s
            | no other ↦ absurd (ground (arith, over, other, c))
          ]
          | no more ↦ gone id (omega (arith, more))
        ],
        λ id c. elim (ℕ_discrete id x) [
          | yes first ↦ absurd (ground (arith, first, c))
          | no other ↦ same id (omega (arith, c)) ∙ cancel_one_other x id s other
        ],
      )

pub cancel_ids_exact :
    (user_id : UserId) (ids : List OrderId) (s : OrderService)
    → Consistent s
    → OwnIds user_id ids s
    → Consistent (cancel_ids user_id ids s).1
      × ((id : OrderId) → 0 < count id ids → get_order id (cancel_ids user_id ids s).1 ≡ none)
      × ((id : OrderId)
          → count id ids ≡ 0
          → get_order id (cancel_ids user_id ids s).1 ≡ get_order id s)
cancel_ids_exact user_id [] s h own = (h, λ id c. absurd (omega (arith, c)), λ id c. refl)
cancel_ids_exact user_id (x ∷ xs) s h own =
    cancel_listed_exact user_id (time_of (get_order x s)) (x ∷ xs) s h own
