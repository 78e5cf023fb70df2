-- ===== src/Orders/Selection.antt =====
-- The orders that `cancel_user_symbol_orders` selects, crates/exg-order-service/src/service.rs.
use mathlib.Core.Option.{some-injective}
use native.Mathlib.Decide.{ℕ_discrete}
use exg.Prelude.{
  ◌<◌, ◌==◌, ==_refl, ==→eq, ◌≡◌, ◌≢◌, refl, sym, ap, ◌∙◌, ◌&&◌, not, Bool-cases, Option-cases, inl,
  inr, true, false, none, some, List, [], ◌∷◌, arith,
}
use exg.Common.Error.{OrderId, UserId, SymbolId}
use exg.Common.Types.{is_terminal}
use exg.Orders.Record.{Order}
use exg.Orders.Service.{OrderService, get_order, ids_of, put_found, found_orders, live_ids}
use exg.Orders.Index.{count, owned, Indexed}
use exg.Orders.Consistent.{Consistent}
use exg.Orders.Closing.{OwnIds}

module _ (s : OrderService) (h : Consistent s) (symbol : SymbolId) where
  keyed : (id : OrderId) (o : Order) → get_order id s ≡ some o → o.order_id ≡ id
  keyed = Indexed.keyed h.0

  unfoldable pub chosen_ids : List OrderId → List OrderId
  chosen_ids ids = live_ids symbol (found_orders ids s)

  found_orders-absent :
      (x : OrderId) (xs : List OrderId)
      → get_order x s ≡ none
      → found_orders (x ∷ xs) s ≡ found_orders xs s
  unfolding found_orders
  found_orders-absent x xs absent = ap (λ f. put_found f (found_orders xs s)) absent

  found_orders-there :
      (x : OrderId) (xs : List OrderId) (p : Order)
      → get_order x s ≡ some p
      → found_orders (x ∷ xs) s ≡ p ∷ found_orders xs s
  unfolding found_orders
  found_orders-there x xs p there = ap (λ f. put_found f (found_orders xs s)) there

  chosen_ids-absent :
      (x : OrderId) (xs : List OrderId) → get_order x s ≡ none → chosen_ids (x ∷ xs) ≡ chosen_ids xs
  unfolding chosen_ids
  chosen_ids-absent x xs absent = ap (live_ids symbol) (found_orders-absent x xs absent)

  chosen_ids-chosen :
      (x : OrderId) (xs : List OrderId) (p : Order)
      → get_order x s ≡ some p
      → (p.symbol == symbol && not (is_terminal p.status)) ≡ true
      → chosen_ids (x ∷ xs) ≡ p.order_id ∷ chosen_ids xs
  unfolding chosen_ids live_ids
  chosen_ids-chosen x xs p there chosen =
      ap (live_ids symbol) (found_orders-there x xs p there) ∙ rw chosen refl

  chosen_ids-passed :
      (x : OrderId) (xs : List OrderId) (p : Order)
      → get_order x s ≡ some p
      → (p.symbol == symbol && not (is_terminal p.status)) ≡ false
      → chosen_ids (x ∷ xs) ≡ chosen_ids xs
  unfolding chosen_ids live_ids
  chosen_ids-passed x xs p there passed =
      ap (live_ids symbol) (found_orders-there x xs p there) ∙ rw passed refl

  -- The ids that are canceled are of orders of the symbol.
  pub chosen_ids_sound :
      (ids : List OrderId) (id : OrderId) (o : Order)
      → 0 < count id (chosen_ids ids)
      → get_order id s ≡ some o
      → (0 < count id ids) × (o.symbol ≡ symbol)
  unfolding chosen_ids found_orders live_ids
  chosen_ids_sound [] id o c found = absurd (omega (arith, c))
  chosen_ids_sound (x ∷ xs) id o c found = elim (Option-cases (get_order x s)) [
    | inl absent ↦
        let c' : 0 < count id (chosen_ids xs) = rw (chosen_ids-absent x xs absent) at c in
        let (m, of) = chosen_ids_sound xs id o c' found in (omega (arith, m), of)
    | inr (p, there) ↦ elim (Bool-cases (p.symbol == symbol && not (is_terminal p.status))) [
      | inl chosen ↦
          let c' : 0 < count id (p.order_id ∷ chosen_ids xs) =
            rw (chosen_ids-chosen x xs p there chosen) at c in
          elim (ℕ_discrete x id) [
            | yes same ↦
                let p_eq : p ≡ o =
                  some-injective _ _ (sym there ∙ ap (λ i. get_order i s) same ∙ found) in
                (
                  rw (same, ==_refl id) (omega arith),
                  sym (ap (λ (q : Order). q.symbol) p_eq) ∙ ==→eq _ _ (ground (arith, chosen)),
                )
            | no other ↦
                let apart : p.order_id ≢ id = λ e. other (sym (keyed x p there) ∙ e) in
                let (m, of) = chosen_ids_sound xs id o (ground (arith, c', apart)) found in
                (omega (arith, m), of)
          ]
      | inr passed ↦
          let c' : 0 < count id (chosen_ids xs) = rw (chosen_ids-passed x xs p there passed) at c in
          let (m, of) = chosen_ids_sound xs id o c' found in (omega (arith, m), of)
    ]
  ]

  -- Every order of the symbol with one of the ids is canceled.
  chosen_ids_whole :
      (ids : List OrderId) (id : OrderId) (o : Order)
      → 0 < count id ids
      → get_order id s ≡ some o
      → o.symbol ≡ symbol
      → 0 < count id (chosen_ids ids)
  chosen_ids_whole [] id o c found of = absurd (omega (arith, c))
  chosen_ids_whole (x ∷ xs) id o c found of = elim (ℕ_discrete x id) [
    | yes same ↦
        let there : get_order x s ≡ some o = ap (λ i. get_order i s) same ∙ found in
        let t : (o.order_id == id) ≡ true = ground (arith, keyed id o found) in
        let chosen : (o.symbol == symbol && not (is_terminal o.status)) ≡ true =
          rw (of, ==_refl symbol, h.1 id o found) refl in
        rw (chosen_ids-chosen x xs o there chosen, t) (omega arith)
    | no other ↦
        let m = chosen_ids_whole xs id o (ground (arith, c, other)) found of in
        elim (Option-cases (get_order x s)) [
          | inl absent ↦ rw (chosen_ids-absent x xs absent) m
          | inr (p, there) ↦ elim (Bool-cases (p.symbol == symbol && not (is_terminal p.status))) [
            | inl chosen ↦ rw (chosen_ids-chosen x xs p there chosen) (omega (arith, m))
            | inr passed ↦ rw (chosen_ids-passed x xs p there passed) m
          ]
        ]
  ]

  pub own_ids : (user_id : UserId) → OwnIds user_id (chosen_ids (ids_of user_id s)) s
  own_ids user_id id o c found =
      let (m, of) = chosen_ids_sound (ids_of user_id s) id o c found in
      let listed : count id (ids_of user_id s) ≡ owned user_id (some o) =
        Indexed.listed h.0 user_id id ∙ ap (owned user_id) found in
      ground (arith, m, listed)

  pub passed_over :
      (user_id : UserId) (id : OrderId) (o : Order)
      → get_order id s ≡ some o
      → count id (chosen_ids (ids_of user_id s)) ≡ 0
      → (o.user_id == user_id && o.symbol == symbol) ≡ false
  passed_over user_id id o found out =
      elim (Bool-cases (o.user_id == user_id && o.symbol == symbol)) [
        | inr passed ↦ passed
        | inl taken ↦
            let listed : count id (ids_of user_id s) ≡ owned user_id (some o) =
              Indexed.listed h.0 user_id id ∙ ap (owned user_id) found in
            let c : 0 < count id (ids_of user_id s) = ground (arith, listed, taken) in
            let of : o.symbol ≡ symbol = ==→eq _ _ (ground (arith, taken)) in
            absurd (omega (arith, out, chosen_ids_whole (ids_of user_id s) id o c found of))
      ]
