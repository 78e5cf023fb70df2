-- ===== src/Clearing/Asking.antt =====
-- What the groups of a scan ask for, crates/exg-clearing/src/risk_monitor.rs.
use mathlib.Core.Path.{subst}
use mathlib.Core.List.{append-nil}
use native.Mathlib.Decide.{ℕ_discrete}
use exg.Prelude.{◌≡◌, ◌≢◌, refl, sym, ap, ◌∙◌, Option, none, some, List, [], ◌∷◌, ◌++◌, arith}
use exg.Prelude.Assoc.{Assoc, lookup, get_or}
use exg.Prelude.Distinct.{IsDistinct}
use exg.Decimal.{Decimal128, zero_dec}
use exg.Decimal.Panic.{Ensures, returns, Ensures-bind, Ensures-self}
use exg.Common.Error.{UserId, SymbolId}
use exg.Risk.Types.{Position, MarginTier}
use exg.Risk.Margin.{calc_margin_ratio}
use exg.Clearing.Monitor.{
  LiquidationRequest, RiskMonitorResult, RiskMonitor, Groups, decide, join, scan_groups,
}
use exg.Clearing.Verdicts.{
  requests_of, canceled_of, Verdict, requests_of-append, canceled_of-append, decide-Verdict,
  decide-foreign,
}

-- What a scan asks for a user whose group of positions was found or not.
abbrev pub Asked :
    RiskMonitor
    → UserId
    → Decimal128
    → List MarginTier
    → Option (List Position)
    → RiskMonitorResult
    → Type 0
Asked monitor user_id balance tiers none r =
    (requests_of user_id r.liquidation_orders ≡ []) × (canceled_of user_id r.cancel_all_users ≡ [])
Asked monitor user_id balance tiers (some ps) r =
    (ratio : Decimal128) × (calc_margin_ratio ps balance tiers ≡ some ratio)
    × Verdict monitor user_id ps ratio (requests_of user_id r.liquidation_orders)
        (canceled_of user_id r.cancel_all_users)

module _ (monitor : RiskMonitor) (balances : Assoc UserId Decimal128) (tiers : List MarginTier)
    (user_id : UserId) where
  abbrev balance : Decimal128
  balance = get_or ℕ_discrete user_id zero_dec balances

  -- The two parts of a result, where one of them asks nothing for the user.
  join-right :
      (a r : RiskMonitorResult) (found : Option (List Position))
      → (requests_of user_id a.liquidation_orders ≡ [])
        × (canceled_of user_id a.cancel_all_users ≡ [])
      → Asked monitor user_id balance tiers found r
      → Asked monitor user_id balance tiers found (join a r)
  join-right a r found (no_requests, none_canceled) h = asked found h
    where
      requests :
          requests_of user_id (join a r).liquidation_orders
          ≡ requests_of user_id r.liquidation_orders
      requests =
          requests_of-append user_id a.liquidation_orders r.liquidation_orders
          ∙ ap (λ (l : List LiquidationRequest). l ++ requests_of user_id r.liquidation_orders)
              no_requests

      canceled :
          canceled_of user_id (join a r).cancel_all_users ≡ canceled_of user_id r.cancel_all_users
      canceled =
          canceled_of-append user_id a.cancel_all_users r.cancel_all_users
          ∙ ap (λ (l : List SymbolId). l ++ canceled_of user_id r.cancel_all_users) none_canceled

      asked :
          (found : Option (List Position))
          → Asked monitor user_id balance tiers found r
          → Asked monitor user_id balance tiers found (join a r)
      asked none h = (requests ∙ h.0, canceled ∙ h.1)
      asked (some ps) (ratio, computed, verdict) = (
        ratio,
        computed,
        subst
            (λ l.
              Verdict monitor user_id ps ratio l (canceled_of user_id (join a r).cancel_all_users))
            (sym requests)
            (subst (Verdict monitor user_id ps ratio (requests_of user_id r.liquidation_orders))
              (sym canceled) verdict),
      )

  join-left :
      (a r : RiskMonitorResult) (ps : List Position) (ratio : Decimal128)
      → (requests_of user_id r.liquidation_orders ≡ [])
        × (canceled_of user_id r.cancel_all_users ≡ [])
      → Verdict monitor user_id ps ratio
          (requests_of user_id a.liquidation_orders)
          (canceled_of user_id a.cancel_all_users)
      → Verdict monitor user_id ps ratio
          (requests_of user_id (join a r).liquidation_orders)
          (canceled_of user_id (join a r).cancel_all_users)
  join-left a r ps ratio (no_requests, none_canceled) verdict =
      subst
        (λ l. Verdict monitor user_id ps ratio l (canceled_of user_id (join a r).cancel_all_users))
        (sym requests)
        (subst (Verdict monitor user_id ps ratio (requests_of user_id a.liquidation_orders))
          (sym canceled) verdict)
    where
      requests :
          requests_of user_id (join a r).liquidation_orders
          ≡ requests_of user_id a.liquidation_orders
      requests =
          requests_of-append user_id a.liquidation_orders r.liquidation_orders
          ∙ ap (λ (l : List LiquidationRequest). requests_of user_id a.liquidation_orders ++ l)
              no_requests
          ∙ append-nil _

      canceled :
          canceled_of user_id (join a r).cancel_all_users ≡ canceled_of user_id a.cancel_all_users
      canceled =
          canceled_of-append user_id a.cancel_all_users r.cancel_all_users
          ∙ ap (λ (l : List SymbolId). canceled_of user_id a.cancel_all_users ++ l) none_canceled
          ∙ append-nil _

  head_group :
      (ps : List Position) (groups : Groups)
      → lookup ℕ_discrete user_id ((user_id, ps) ∷ groups) ≡ some ps
  unfolding lookup
  head_group ps groups = ground arith

  tail_group :
      (v : UserId) (ps : List Position) (groups : Groups)
      → v ≢ user_id
      → lookup ℕ_discrete user_id ((v, ps) ∷ groups) ≡ lookup ℕ_discrete user_id groups
  unfolding lookup
  tail_group v ps groups other = ground arith

  own_group :
      (ps : List Position) (groups : Groups) (ratio : Decimal128) (rest : RiskMonitorResult)
      → lookup ℕ_discrete user_id groups ≡ none
      → calc_margin_ratio ps balance tiers ≡ some ratio
      → Asked monitor user_id balance tiers (lookup ℕ_discrete user_id groups) rest
      → Asked monitor user_id balance tiers
          (lookup ℕ_discrete user_id ((user_id, ps) ∷ groups))
          (join (decide monitor user_id ps ratio) rest)
  own_group ps groups ratio rest once computed known =
      let none_left : Asked monitor user_id balance tiers none rest =
        subst (λ found. Asked monitor user_id balance tiers found rest) once known in
      rw (head_group ps groups) (
        ratio,
        computed,
        join-left (decide monitor user_id ps ratio) rest ps ratio none_left
            (decide-Verdict monitor user_id ps ratio),
      )

  pub scan_groups-Asked :
      (groups : Groups)
      → IsDistinct groups
      → Ensures
          (Asked monitor user_id balance tiers (lookup ℕ_discrete user_id groups))
          (scan_groups monitor balances tiers groups)
  unfolding scan_groups
  scan_groups-Asked [] h = returns _ (refl, refl)
  scan_groups-Asked ((v, ps) ∷ groups) (once, h) =
      Ensures-bind _
        (Ensures-self (calc_margin_ratio ps (get_or ℕ_discrete v zero_dec balances) tiers))
        λ ratio computed. Ensures-bind _ (scan_groups-Asked groups h) λ rest known.
          returns (join (decide monitor v ps ratio) rest) (elim (ℕ_discrete v user_id) [
            | yes own ↦
                subst
                  (λ w.
                    Asked monitor user_id balance tiers
                      (lookup ℕ_discrete user_id ((w, ps) ∷ groups))
                      (join (decide monitor w ps ratio) rest))
                  (sym own)
                  (own_group ps groups ratio rest
                    (ap (λ w. lookup ℕ_discrete w groups) (sym own) ∙ once)
                    (ap (λ w. calc_margin_ratio ps (get_or ℕ_discrete w zero_dec balances) tiers)
                        (sym own)
                      ∙ computed)
                    known)
            | no foreign ↦
                let asks_nothing = decide-foreign monitor user_id v ps ratio (ground arith) in
                let there = tail_group v ps groups foreign in
                rw there (
                  join-right (decide monitor v ps ratio) rest (lookup ℕ_discrete user_id groups)
                    asks_nothing known)
          ])
