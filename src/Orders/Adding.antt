-- ===== src/Orders/Adding.antt =====
-- A new order and the indices of the order service, crates/exg-order-service/src/service.rs.
use mathlib.Core.Option.{some-injective, some-ne-none}
use native.Mathlib.Decide.{ℕ_discrete}
use exg.Prelude.{
  ℕ, ◌==◌, ◌≡◌, ◌≢◌, refl, sym, ap, ◌∙◌, ◌⊎◌, inl, inr, true, false, Option, none, some, [], ◌∷◌,
  ◌++◌, arith,
}
use exg.Prelude.Assoc.{Assoc, lookup, get_or, or_else, upsert, lookup-upsert_self, lookup-upsert_ne}
use exg.Common.Error.{OrderId, UserId}
use exg.Orders.Record.{Order}
use exg.Orders.Service.{
  OrderService, ClientKey, ClientKey-discrete, get_order, set_order, add_order, add_client, ids_of,
}
use exg.Orders.Lookups.{get_order-set_order_self, get_order-set_order_ne}
use exg.Prelude.Distinct.{upsert-IsDistinct}
use exg.Orders.Index.{count, owned, Indexed, count-snoc}

-- An entry of the client ids names the new order or was there before.
add_client-lookup :
    (o : Order) (u cid : ℕ) (m : Assoc ClientKey OrderId) (c : Option ℕ) (id : OrderId)
    → o.client_order_id ≡ c
    → lookup ClientKey-discrete (u, cid) (add_client o m) ≡ some id
    → ((o.user_id ≡ u) × (o.client_order_id ≡ some cid) × (o.order_id ≡ id))
      ⊎ (lookup ClientKey-discrete (u, cid) m ≡ some id)
add_client-lookup o u cid m none id same e = inr (rw same at e)
add_client-lookup o u cid m (some c) id same e =
    let e' : lookup ClientKey-discrete (u, cid)
          (upsert ClientKey-discrete (o.user_id, c) o.order_id (λ _. o.order_id) m)
        ≡ some id =
      rw same at e in
    elim (ClientKey-discrete (u, cid) (o.user_id, c)) [
      | yes key ↦ inl (
        sym (ap (λ (k : ClientKey). k.0) key),
        same ∙ ap some (sym (ap (λ (k : ClientKey). k.1) key)),
        some-injective _ _ (
            sym
              (lookup-upsert_self ClientKey-discrete (o.user_id, c) o.order_id (λ _. o.order_id) m)
            ∙ ap
                (λ k.
                  lookup ClientKey-discrete k
                    (upsert ClientKey-discrete (o.user_id, c) o.order_id (λ _. o.order_id) m))
                (sym key)
            ∙ e'),
      )
      | no other ↦ inr (
          sym (
            lookup-upsert_ne ClientKey-discrete (u, cid) (o.user_id, c) o.order_id (λ _. o.order_id)
              m other)
          ∙ e')
    ]

module _ (o : Order) (s : OrderService) (absent : get_order o.order_id s ≡ none) where
  at_new : (id : OrderId) → id ≡ o.order_id → get_order id (add_order o s) ≡ some o
  unfolding add_order get_order
  at_new id same =
      ap (λ i. get_order i (set_order o.order_id o s)) same
      ∙ get_order-set_order_self o.order_id o s

  at_old : (id : OrderId) → id ≢ o.order_id → get_order id (add_order o s) ≡ get_order id s
  unfolding add_order get_order
  at_old id other = get_order-set_order_ne o.order_id id o s other

  -- What is in the list of a user.
  put_in :
      Indexed s
      → (u : UserId) (id : OrderId)
      → count id (
          get_or ℕ_discrete u []
            (upsert ℕ_discrete o.user_id [] (λ ids. ids ++ (o.order_id ∷ [])) s.user_active_orders))
        ≡ owned u (get_order id (add_order o s))
  unfolding get_or ids_of
  put_in h u id =
      let m = s.user_active_orders in
      let before : count id (get_or ℕ_discrete u [] m) ≡ owned u (get_order id s) = h.listed u id in
      let stays : id ≢ o.order_id
          → owned u (get_order id s) ≡ owned u (get_order id (add_order o s)) =
        λ other. ap (owned u) (sym (at_old id other)) in
      elim (ℕ_discrete u o.user_id) [
        | yes own ↦
            let grown : lookup ℕ_discrete u
                  (upsert ℕ_discrete o.user_id [] (λ ids. ids ++ (o.order_id ∷ [])) m)
                ≡ some (get_or ℕ_discrete u [] m ++ (o.order_id ∷ [])) =
              ap
                (λ v.
                  lookup ℕ_discrete v
                    (upsert ℕ_discrete o.user_id [] (λ ids. ids ++ (o.order_id ∷ [])) m))
                own
              ∙ lookup-upsert_self ℕ_discrete o.user_id [] (λ ids. ids ++ (o.order_id ∷ [])) m
              ∙ ap (λ v. some (get_or ℕ_discrete v [] m ++ (o.order_id ∷ []))) (sym own) in
            ap (λ l. count id (or_else l [])) grown
            ∙ count-snoc id o.order_id (get_or ℕ_discrete u [] m)
            ∙ elim (ℕ_discrete id o.order_id) [
              | yes same ↦
                  let t : (o.order_id == id) ≡ true = ground arith in
                  let t' : (o.user_id == u) ≡ true = ground arith in
                  let nothing : owned u (get_order id s) ≡ 0 =
                    ap (λ i. owned u (get_order i s)) same ∙ ap (owned u) absent in
                  rw (before, nothing, t, at_new id same, t') refl
              | no other ↦
                  let t : (o.order_id == id) ≡ false = ground arith in
                  let e = before ∙ stays other in rw (t, e) (omega arith)
            ]
        | no foreign ↦
            ap (λ l. count id (or_else l []))
              (lookup-upsert_ne ℕ_discrete u o.user_id [] (λ ids. ids ++ (o.order_id ∷ [])) m
                foreign)
            ∙ before
            ∙ elim (ℕ_discrete id o.order_id) [
              | yes same ↦
                  let t : (o.user_id == u) ≡ false = ground arith in
                  let nothing : owned u (get_order id s) ≡ 0 =
                    ap (λ i. owned u (get_order i s)) same ∙ ap (owned u) absent in
                  rw (nothing, at_new id same, t) refl
              | no other ↦ stays other
            ]
      ]

  pub add_order-Indexed : Indexed s → Indexed (add_order o s)
  unfolding ids_of add_order set_order
  add_order-Indexed h = record {
    distinct = upsert-IsDistinct o.order_id o (λ _. o) s.orders h.distinct;
    keyed = λ id p e. elim (ℕ_discrete id o.order_id) [
      | yes same ↦
          ap (λ (x : Order). x.order_id) (sym (some-injective _ _ (sym (at_new id same) ∙ e)))
          ∙ sym same
      | no other ↦ h.keyed id p (sym (at_old id other) ∙ e)
    ];
    listed = put_in h;
    clients = λ u cid id e.
        elim (add_client-lookup o u cid s.client_order_map o.client_order_id id refl e) [
          | inl (user, client, same) ↦ (o, at_new id (sym same), user, client)
          | inr old ↦
              let (p, there, user, client) = h.clients u cid id old in
              let other : id ≢ o.order_id =
                λ same. some-ne-none p (sym there ∙ ap (λ i. get_order i s) same ∙ absent) in
              (p, at_old id other ∙ there, user, client)
        ];
  }
