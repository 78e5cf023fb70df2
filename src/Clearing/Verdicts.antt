-- ===== src/Clearing/Verdicts.antt =====
-- What the margin ratio of a user asks for, crates/exg-clearing/src/risk_monitor.rs.
use native.Mathlib.Decide.{ℕ_discrete}
use exg.Prelude.{
  ℕ, ◌==◌, ==_refl, ==→eq, ◌≡◌, ◌⊎◌, ◌≤ℤ◌, ◌<ℤ◌, refl, sym, ap, ◌∙◌, true, false, Bool-cases, inl,
  inr, Option, none, some, List, [], ◌∷◌, ◌++◌, if◌then◌else◌, map, arith,
}
use exg.Prelude.Assoc.{Assoc, lookup, upsert, lookup-upsert_self, lookup-upsert_ne}
use exg.Decimal.{Decimal128, le_dec}
use exg.Common.Error.{UserId, SymbolId}
use exg.Common.Types.{Side, buy, sell, PositionSide, long, short, both}
use exg.Risk.Types.{Position}
use exg.Clearing.Monitor.{
  LiquidationRequest, RiskMonitor, collect, cancel_of, closing_side, liquidation_of, decide,
}

abbrev pub or_first : {A : Type 0} → Option A → Option A → Option A
or_first none found = found
or_first (some a) found = some a

-- What a list of pairs says last of a key.
abbrev pub last_of : {A : Type 0} → ℕ → List (ℕ × A) → Option A
last_of k [] = none
last_of k ((j, a) ∷ entries) = or_first (last_of k entries) (if j == k then some a else none)

or_first_assoc :
    {A : Type 0} (a b c : Option A) → or_first (or_first a b) c ≡ or_first a (or_first b c)
or_first_assoc none b c = refl
or_first_assoc (some a) b c = refl

lookup-collect :
    (k : ℕ) (entries : List (ℕ × Decimal128)) (m : Assoc ℕ Decimal128)
    → lookup ℕ_discrete k (collect entries m) ≡ or_first (last_of k entries) (lookup ℕ_discrete k m)
unfolding collect
lookup-collect k [] m = refl
lookup-collect k ((j, v) ∷ entries) m =
    lookup-collect k entries (upsert ℕ_discrete j v (λ _. v) m)
    ∙ ap (or_first (last_of k entries)) (elim (Bool-cases (j == k)) [
      | inl same ↦
          let e : j ≡ k = ==→eq _ _ same in
          rw same (
            ap (λ i. lookup ℕ_discrete i (upsert ℕ_discrete j v (λ _. v) m)) (sym e)
            ∙ lookup-upsert_self ℕ_discrete j v (λ _. v) m)
      | inr other ↦
          rw other (lookup-upsert_ne ℕ_discrete k j v (λ _. v) m (λ e. ground (arith, other, e)))
    ])
    ∙ sym (
        or_first_assoc (last_of k entries) (if j == k then some v else none)
          (lookup ℕ_discrete k m))

or_first_none : {A : Type 0} (a : Option A) → or_first a none ≡ a
or_first_none none = refl
or_first_none (some a) = refl

pub collect-last_of :
    (entries : List (ℕ × Decimal128)) (k : ℕ)
    → lookup ℕ_discrete k (collect entries []) ≡ last_of k entries
unfolding lookup
collect-last_of entries k = lookup-collect k entries [] ∙ or_first_none (last_of k entries)

-- The requests for a user.
abbrev pub requests_of : UserId → List LiquidationRequest → List LiquidationRequest
requests_of user_id [] = []
requests_of user_id (q ∷ qs) =
    if q.user_id == user_id then q ∷ requests_of user_id qs else requests_of user_id qs

-- The symbols in which the orders of a user are canceled.
abbrev pub canceled_of : UserId → List (UserId × SymbolId) → List SymbolId
canceled_of user_id [] = []
canceled_of user_id ((u, symbol) ∷ entries) =
    if u == user_id then symbol ∷ canceled_of user_id entries else canceled_of user_id entries

-- A short position is closed by a purchase, any other by a sale.
abbrev pub against : PositionSide → Side
against short = buy
against long = sell
against both = sell

-- The request that closes a position of a user in full.
abbrev pub order_against : UserId → Position → LiquidationRequest
order_against user_id p = record {
  user_id = user_id;
  symbol = p.symbol;
  side = against p.side;
  quantity = p.size;
}

abbrev pub symbols : List Position → List SymbolId
symbols ps = map (λ (p : Position). p.symbol) ps

-- What is asked for a user at a margin ratio, by requests and by canceled symbols.
abbrev pub Verdict :
    RiskMonitor
    → UserId
    → List Position
    → Decimal128
    → List LiquidationRequest
    → List SymbolId
    → Type 0
Verdict monitor user_id ps ratio qs canceled =
    (monitor.liquidation_threshold ≤ℤ ratio)
      × (qs ≡ map (order_against user_id) ps)
      × (canceled ≡ symbols ps)
    ⊎ (ratio <ℤ monitor.liquidation_threshold)
      × (monitor.margin_call_threshold ≤ℤ ratio)
      × (qs ≡ [])
      × (canceled ≡ symbols ps)
    ⊎ (ratio <ℤ monitor.liquidation_threshold)
      × (ratio <ℤ monitor.margin_call_threshold)
      × (qs ≡ [])
      × (canceled ≡ [])

against_lem : (side : PositionSide) → closing_side side ≡ against side
unfolding closing_side
against_lem long = refl
against_lem short = refl
against_lem both = refl

requests_of-own :
    (user_id : UserId) (ps : List Position)
    → requests_of user_id (map (liquidation_of user_id) ps) ≡ map (order_against user_id) ps
requests_of-own user_id [] = refl
requests_of-own user_id (p ∷ ps) = rw (==_refl user_id) (λ i.
    record { user_id = user_id; symbol = p.symbol; side = against_lem p.side i; quantity = p.size }
    ∷ requests_of-own user_id ps i)

requests_of-foreign :
    (user_id v : UserId) (ps : List Position)
    → (v == user_id) ≡ false
    → requests_of user_id (map (liquidation_of v) ps) ≡ []
requests_of-foreign user_id v [] h = refl
requests_of-foreign user_id v (p ∷ ps) h = rw h (requests_of-foreign user_id v ps h)

canceled_of-own :
    (user_id : UserId) (ps : List Position)
    → canceled_of user_id (map (cancel_of user_id) ps) ≡ symbols ps
canceled_of-own user_id [] = refl
canceled_of-own user_id (p ∷ ps) =
    rw (==_refl user_id) (ap (λ (l : List SymbolId). p.symbol ∷ l) (canceled_of-own user_id ps))

canceled_of-foreign :
    (user_id v : UserId) (ps : List Position)
    → (v == user_id) ≡ false
    → canceled_of user_id (map (cancel_of v) ps) ≡ []
canceled_of-foreign user_id v [] h = refl
canceled_of-foreign user_id v (p ∷ ps) h = rw h (canceled_of-foreign user_id v ps h)

pub requests_of-append :
    (user_id : UserId) (qs qs' : List LiquidationRequest)
    → requests_of user_id (qs ++ qs') ≡ requests_of user_id qs ++ requests_of user_id qs'
requests_of-append user_id [] qs' = refl
requests_of-append user_id (q ∷ qs) qs' = elim (Bool-cases (q.user_id == user_id)) [
  | inl own ↦
      rw own (ap (λ (l : List LiquidationRequest). q ∷ l) (requests_of-append user_id qs qs'))
  | inr foreign ↦ rw foreign (requests_of-append user_id qs qs')
]

pub canceled_of-append :
    (user_id : UserId) (cs cs' : List (UserId × SymbolId))
    → canceled_of user_id (cs ++ cs') ≡ canceled_of user_id cs ++ canceled_of user_id cs'
canceled_of-append user_id [] cs' = refl
canceled_of-append user_id ((u, symbol) ∷ cs) cs' = elim (Bool-cases (u == user_id)) [
  | inl own ↦ rw own (ap (λ (l : List SymbolId). symbol ∷ l) (canceled_of-append user_id cs cs'))
  | inr foreign ↦ rw foreign (canceled_of-append user_id cs cs')
]

at_least : (a b : Decimal128) → le_dec a b ≡ true → a ≤ℤ b
unfolding le_dec
at_least a b h = ground arith

below : (a b : Decimal128) → le_dec a b ≡ false → b <ℤ a
unfolding le_dec
below a b h = ground arith

module _ (monitor : RiskMonitor) where
  pub decide-Verdict :
      (user_id : UserId) (ps : List Position) (ratio : Decimal128)
      → Verdict monitor user_id ps ratio
          (requests_of user_id (decide monitor user_id ps ratio).liquidation_orders)
          (canceled_of user_id (decide monitor user_id ps ratio).cancel_all_users)
  unfolding decide
  decide-Verdict user_id ps ratio = elim (Bool-cases (le_dec monitor.liquidation_threshold ratio)) [
    | inl over ↦
        rw over (inl (at_least _ _ over, requests_of-own user_id ps, canceled_of-own user_id ps))
    | inr under ↦ elim (Bool-cases (le_dec monitor.margin_call_threshold ratio)) [
      | inl called ↦
          rw (under, called)
            (inr (inl (below _ _ under, at_least _ _ called, refl, canceled_of-own user_id ps)))
      | inr safe ↦ rw (under, safe) (inr (inr (below _ _ under, below _ _ safe, refl, refl)))
    ]
  ]

  -- Nothing is asked for another user.
  pub decide-foreign :
      (user_id v : UserId) (ps : List Position) (ratio : Decimal128)
      → (v == user_id) ≡ false
      → (requests_of user_id (decide monitor v ps ratio).liquidation_orders ≡ [])
        × (canceled_of user_id (decide monitor v ps ratio).cancel_all_users ≡ [])
  unfolding decide
  decide-foreign user_id v ps ratio h =
      elim (Bool-cases (le_dec monitor.liquidation_threshold ratio)) [
        | inl over ↦
            rw over (requests_of-foreign user_id v ps h, canceled_of-foreign user_id v ps h)
        | inr under ↦ elim (Bool-cases (le_dec monitor.margin_call_threshold ratio)) [
          | inl called ↦ rw (under, called) (refl, canceled_of-foreign user_id v ps h)
          | inr safe ↦ rw (under, safe) (refl, refl)
        ]
      ]
