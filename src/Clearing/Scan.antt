-- ===== src/Clearing/Scan.antt =====
-- What a scan of the risk monitor asks for, crates/exg-clearing/src/risk_monitor.rs.
use mathlib.Core.Path.{subst}
use native.Mathlib.Decide.{ℕ_discrete}
use exg.Prelude.{◌≡◌, ◌⊎◌, refl, sym, ap, ◌∙◌, inl, inr, Option, none, some, List, [], ◌++◌}
use exg.Prelude.Assoc.{lookup, get_or, or_else}
use exg.Decimal.{Decimal128, zero_dec}
use exg.Decimal.Panic.{Ensures-bind, Ensures-map, Ensures-some}
use exg.Common.Error.{UserId, SymbolId}
use exg.Risk.Types.{Position, MarginTier}
use exg.Clearing.Monitor.{RiskMonitorResult, RiskMonitor, Groups, collect, scan_positions}
use exg.Clearing.Grouping.{AllRevalued, positions_of, group_of, group_positions-Grouped}
use exg.Clearing.Verdicts.{last_of, collect-last_of}
use exg.Clearing.Asking.{Asked, scan_groups-Asked}

-- What a scan does for a user: the positions of the user, with their profits at the last price of
-- their symbol, ask for what their margin ratio with the last balance of the user asks for.
abbrev pub Scanned :
    RiskMonitor
    → List Position
    → List (UserId × Decimal128)
    → List (SymbolId × Decimal128)
    → List MarginTier
    → UserId
    → RiskMonitorResult
    → Type 0
Scanned monitor positions wallet_balances mark_prices tiers user_id r =
    (ps : List Position) × AllRevalued (λ symbol. last_of symbol mark_prices)
      (positions_of user_id positions) ps
    × ((ps ≡ [])
          × Asked monitor user_id (or_else (last_of user_id wallet_balances) zero_dec) tiers none r
        ⊎ Asked monitor user_id (or_else (last_of user_id wallet_balances) zero_dec) tiers (some ps)
            r)

last_balance :
    (user_id : UserId) (wallet_balances : List (UserId × Decimal128))
    → get_or ℕ_discrete user_id zero_dec (collect wallet_balances [])
      ≡ or_else (last_of user_id wallet_balances) zero_dec
unfolding get_or
last_balance user_id wallet_balances =
    ap (λ found. or_else found zero_dec) (collect-last_of wallet_balances user_id)

-- The group of a user is that of all positions of the user.
by_group :
    (monitor : RiskMonitor) (user_id : UserId) (held : Decimal128) (tiers : List MarginTier)
    (groups : Groups) (ps : List Position) (r : RiskMonitorResult) (found : Option (List Position))
    → lookup ℕ_discrete user_id groups ≡ found
    → group_of user_id groups ≡ group_of user_id [] ++ ps
    → Asked monitor user_id held tiers found r
    → (ps ≡ []) × Asked monitor user_id held tiers none r
      ⊎ Asked monitor user_id held tiers (some ps) r
unfolding lookup
by_group monitor user_id held tiers groups ps r none e group asked =
    inl (sym group ∙ ap (λ f. or_else f []) e, asked)
by_group monitor user_id held tiers groups ps r (some vs) e group asked =
    let same : vs ≡ ps = sym (ap (λ f. or_else f []) e) ∙ group in
    inr (subst (λ l. Asked monitor user_id held tiers (some l) r) same asked)

-- A scan that goes through, and any user: where the user has no position, nothing is asked for the
-- user. Otherwise the margin ratio of all positions of the user, at the last mark price of each
-- symbol and with the last balance of the user, is computed. From the liquidation threshold on,
-- exactly the positions of the user are to be closed, each in full, a short one by a purchase and
-- any other by a sale, and the orders in their symbols are canceled; below it, and from the margin
-- call threshold on, these orders are canceled and nothing is closed; below both, nothing is asked
-- for the user.
pub scan_positions-Scanned :
    (monitor : RiskMonitor) (positions : List Position)
    (wallet_balances : List (UserId × Decimal128)) (mark_prices : List (SymbolId × Decimal128))
    (tiers : List MarginTier) (user_id : UserId) (r : RiskMonitorResult)
    → scan_positions monitor positions wallet_balances mark_prices tiers ≡ some r
    → Scanned monitor positions wallet_balances mark_prices tiers user_id r
unfolding scan_positions
scan_positions-Scanned monitor positions wallet_balances mark_prices tiers user_id r e =
    Ensures-some (Scanned monitor positions wallet_balances mark_prices tiers user_id)
      (Ensures-bind _ (group_positions-Grouped (collect mark_prices []) positions [] tt)
        λ groups (once, all).
          Ensures-map _
            (scan_groups-Asked monitor (collect wallet_balances []) tiers user_id groups once)
            (λ s asked. conclude groups (all user_id) s asked))
      e
  where
    conclude :
        (groups : Groups)
        → ((ps : List Position) × AllRevalued
              (λ symbol. lookup ℕ_discrete symbol (collect mark_prices []))
              (positions_of user_id positions)
              ps
            × (group_of user_id groups ≡ group_of user_id [] ++ ps))
        → (s : RiskMonitorResult)
        → Asked monitor user_id
            (get_or ℕ_discrete user_id zero_dec (collect wallet_balances []))
            tiers
            (lookup ℕ_discrete user_id groups)
            s
        → Scanned monitor positions wallet_balances mark_prices tiers user_id s
    conclude groups (ps, valued, found) s asked = (
      ps,
      subst (λ price. AllRevalued price (positions_of user_id positions) ps)
          (λ i symbol. collect-last_of mark_prices symbol i) valued,
      by_group monitor user_id _ tiers groups ps s (lookup ℕ_discrete user_id groups) refl found (
          subst (λ b. Asked monitor user_id b tiers (lookup ℕ_discrete user_id groups) s)
            (last_balance user_id wallet_balances) asked),
    )
