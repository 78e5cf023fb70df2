-- ===== src/Orders/Moving.antt =====
-- The writes and the indices of the order service, crates/exg-order-service/src/service.rs.
use mathlib.Core.Path.{subst}
use mathlib.Core.Option.{some-injective, some-ne-none}
use native.Mathlib.Decide.{ℕ_discrete}
use exg.Prelude.{
  ℕ, ◌==◌, ==_refl, ◌≡◌, ◌≢◌, refl, sym, ap, ◌∙◌, Option-cases, inl, inr, true, false, Option, none,
  some, List, [], ◌∷◌, if◌then◌else◌, arith,
}
use exg.Prelude.Assoc.{
  Assoc, lookup, get_or, or_else, lookup-upsert_self, lookup-upsert_ne, lookup-remove_self,
  lookup-remove_ne,
}
use exg.Common.Error.{OrderId, UserId}
use exg.Matching.Book.{retain_others}
use exg.Orders.Record.{Order}
use exg.Orders.Service.{
  OrderService, ClientKey, ClientKey-discrete, get_order, set_order, push_completed, complete,
  move_to_completed, drop_active, drop_client, ids_of, keep_ids,
}
use exg.Orders.Lookups.{
  get_order-set_order_self, get_order-set_order_ne, get_order-move_to_completed_self,
  get_order-move_to_completed_ne,
}
use exg.Prelude.Distinct.{IsDistinct, upsert-IsDistinct, remove-IsDistinct}
use exg.Orders.Index.{count, owned, Indexed, count-retain_others}

-- The lists of the users without an id of one of them.
get_or-drop_active_self :
    (u : UserId) (id : OrderId) (m : Assoc UserId (List OrderId))
    → get_or ℕ_discrete u [] (drop_active u id m) ≡ retain_others id (get_or ℕ_discrete u [] m)
unfolding drop_active get_or retain_others
get_or-drop_active_self u id m = elim (Option-cases (lookup ℕ_discrete u m)) [
  | inl absent ↦ rw (absent, absent) refl
  | inr (ids, found) ↦ rw (found) (kept (retain_others id ids))
]
  where
    kept : (rest : List OrderId) → or_else (lookup ℕ_discrete u (keep_ids u rest m)) [] ≡ rest
    kept [] = rw (lookup-remove_self ℕ_discrete u m) refl
    kept (x ∷ xs) = rw (lookup-upsert_self ℕ_discrete u [] (λ _. x ∷ xs) m) refl

get_or-drop_active_ne :
    (u u' : UserId) (id : OrderId) (m : Assoc UserId (List OrderId))
    → u' ≢ u
    → get_or ℕ_discrete u' [] (drop_active u id m) ≡ get_or ℕ_discrete u' [] m
unfolding drop_active get_or
get_or-drop_active_ne u u' id m h = elim (Option-cases (lookup ℕ_discrete u m)) [
  | inl absent ↦ rw absent refl
  | inr (ids, found) ↦ rw found (kept (retain_others id ids))
]
  where
    kept :
        (rest : List OrderId)
        → or_else (lookup ℕ_discrete u' (keep_ids u rest m)) []
          ≡ or_else (lookup ℕ_discrete u' m) []
    kept [] = rw (lookup-remove_ne ℕ_discrete u' u m h) refl
    kept (x ∷ xs) = rw (lookup-upsert_ne ℕ_discrete u' u [] (λ _. x ∷ xs) m h) refl

drop_client-lookup :
    (u u' : UserId) (cid' : ℕ) (c : Option ℕ) (m : Assoc ClientKey OrderId) (id' : OrderId)
    → lookup ClientKey-discrete (u', cid') (drop_client u c m) ≡ some id'
    → (lookup ClientKey-discrete (u', cid') m ≡ some id') × ¬ ((u' ≡ u) × (c ≡ some cid'))
drop_client-lookup u u' cid' none m id' e = (e, λ q. some-ne-none _ (sym q.1))
drop_client-lookup u u' cid' (some cid) m id' e = elim (ClientKey-discrete (u', cid') (u, cid)) [
  | yes same ↦ absurd (
      some-ne-none id' (
        sym e
        ∙ ap (λ k. lookup ClientKey-discrete k (drop_client u (some cid) m)) same
        ∙ lookup-remove_self ClientKey-discrete (u, cid) m))
  | no other ↦ (
    sym (lookup-remove_ne ClientKey-discrete (u', cid') (u, cid) m other) ∙ e,
    λ q. other (λ i. (q.0 i, some-injective _ _ (sym q.1) i)),
  )
]

module _ (id : OrderId) (o : Order) (s : OrderService) (found : get_order id s ≡ some o) where
  at_key : (id' : OrderId) → id' ≡ id → get_order id' s ≡ some o
  at_key id' same = ap (λ i. get_order i s) same ∙ found

  -- An order that keeps its id, its user and its client id is found_written.
  module _ (o' : Order) (same_id : o'.order_id ≡ o.order_id) (same_user : o'.user_id ≡ o.user_id)
      (same_client : o'.client_order_id ≡ o.client_order_id) where
    found_written : (id' : OrderId) → id' ≡ id → get_order id' (set_order id o' s) ≡ some o'
    found_written id' same =
        ap (λ i. get_order i (set_order id o' s)) same ∙ get_order-set_order_self id o' s

    pub set_order-Indexed : Indexed s → Indexed (set_order id o' s)
    unfolding ids_of set_order
    set_order-Indexed h = record {
      distinct = upsert-IsDistinct id o' (λ _. o') s.orders h.distinct;
      keyed = λ id' p e. elim (ℕ_discrete id' id) [
        | yes same ↦
            ap (λ (x : Order). x.order_id)
              (sym (some-injective _ _ (sym (found_written id' same) ∙ e)))
            ∙ same_id
            ∙ h.keyed id' o (at_key id' same)
        | no other ↦ h.keyed id' p (sym (get_order-set_order_ne id id' o' s other) ∙ e)
      ];
      listed = λ user_id id'. h.listed user_id id' ∙ elim (ℕ_discrete id' id) [
        | yes same ↦
            ap (owned user_id) (at_key id' same)
            ∙ ap (λ u. if u == user_id then 1 else 0) (sym same_user)
            ∙ ap (owned user_id) (sym (found_written id' same))
        | no other ↦ ap (owned user_id) (sym (get_order-set_order_ne id id' o' s other))
      ];
      clients = λ user_id cid id' e.
          let (p, there, user, client) = h.clients user_id cid id' e in
          elim (ℕ_discrete id' id) [
            | yes same ↦
                let p_eq : o ≡ p = some-injective _ _ (sym (at_key id' same) ∙ there) in
                (
                  o',
                  found_written id' same,
                  same_user ∙ ap (λ (x : Order). x.user_id) p_eq ∙ user,
                  same_client ∙ ap (λ (x : Order). x.client_order_id) p_eq ∙ client,
                )
            | no other ↦ (p, get_order-set_order_ne id id' o' s other ∙ there, user, client)
          ];
    }

  -- The order goes to the completed ones.
  completed_as : (u : UserId) → move_to_completed id u s ≡ complete id u (some o) s
  unfolding move_to_completed
  completed_as u = rw found refl

  -- What is left in the list of a user.
  taken_off :
      Indexed s
      → (user_id : UserId) (id' : OrderId)
      → count id' (get_or ℕ_discrete user_id [] (drop_active o.user_id id s.user_active_orders))
        ≡ owned user_id (get_order id' (move_to_completed id o.user_id s))
  unfolding ids_of
  taken_off h user_id id' =
      let u = o.user_id in
      let m = s.user_active_orders in
      let after : (i : OrderId) → i ≡ id → get_order i (move_to_completed id u s) ≡ none = λ i same.
        ap (λ j. get_order j (move_to_completed id u s)) same
        ∙ get_order-move_to_completed_self id u s in
      elim (ℕ_discrete user_id u) [
        | yes own ↦
            let left : get_or ℕ_discrete user_id [] (drop_active u id m)
                ≡ retain_others id (get_or ℕ_discrete user_id [] m) =
              ap (λ v. get_or ℕ_discrete v [] (drop_active u id m)) own
              ∙ get_or-drop_active_self u id m
              ∙ ap (λ v. retain_others id (get_or ℕ_discrete v [] m)) (sym own) in
            ap (count id') left
            ∙ count-retain_others id' id (get_or ℕ_discrete user_id [] m)
            ∙ elim (ℕ_discrete id' id) [
              | yes same ↦
                  let t : (id' == id) ≡ true = ap (λ j. j == id) same ∙ ==_refl id in
                  rw (t, after id' same) refl
              | no other ↦
                  let t : (id' == id) ≡ false = ground arith in
                  rw t (
                    h.listed user_id id'
                    ∙ ap (owned user_id) (sym (get_order-move_to_completed_ne id id' u s other)))
            ]
        | no foreign ↦
            ap (count id') (get_or-drop_active_ne u user_id id m foreign)
            ∙ h.listed user_id id'
            ∙ elim (ℕ_discrete id' id) [
              | yes same ↦
                  let t : (u == user_id) ≡ false = ground arith in
                  rw (at_key id' same, after id' same, t) refl
              | no other ↦
                  ap (owned user_id) (sym (get_order-move_to_completed_ne id id' u s other))
            ]
      ]

  pub move_to_completed-Indexed : Indexed s → Indexed (move_to_completed id o.user_id s)
  unfolding ids_of push_completed
  move_to_completed-Indexed h =
      let u = o.user_id in
      let shape = completed_as u in
      record {
        distinct =
            subst (λ t. IsDistinct t.orders) (sym shape) (remove-IsDistinct id s.orders h.distinct);
        keyed = λ id' p e. elim (ℕ_discrete id' id) [
          | yes same ↦ absurd (
              some-ne-none p (
                sym e
                ∙ ap (λ i. get_order i (move_to_completed id u s)) same
                ∙ get_order-move_to_completed_self id u s))
          | no other ↦ h.keyed id' p (sym (get_order-move_to_completed_ne id id' u s other) ∙ e)
        ];
        listed =
            λ user_id id'. ap (λ t. count id' (ids_of user_id t)) shape ∙ taken_off h user_id id';
        clients = λ user_id cid id' e.
            let (kept, fresh_key) =
              drop_client-lookup u user_id cid o.client_order_id s.client_order_map id' (
                ap (λ t. lookup ClientKey-discrete (user_id, cid) t.client_order_map) (sym shape)
                ∙ e) in
            let (p, there, user, client) = h.clients user_id cid id' kept in
            elim (ℕ_discrete id' id) [
              | yes same ↦
                  let p_eq : o ≡ p = some-injective _ _ (sym (at_key id' same) ∙ there) in
                  absurd (
                    fresh_key (
                      sym (ap (λ (x : Order). x.user_id) p_eq ∙ user),
                      ap (λ (x : Order). x.client_order_id) p_eq ∙ client,
                    ))
              | no other ↦
                  (p, get_order-move_to_completed_ne id id' u s other ∙ there, user, client)
            ];
      }
