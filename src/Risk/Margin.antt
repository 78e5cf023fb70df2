-- ===== src/Risk/Margin.antt =====
-- Margins, crates/exg-risk-engine/src/margin.rs.
use exg.Prelude.{Bool, ◌&&◌, not, Option, none, some, List, [], ◌∷◌, map, if◌then◌else◌}
use exg.Decimal.{Decimal128, zero_dec, one_dec, max_dec, add, sub, sum, is_positive, le_dec, lt_dec}
use exg.Decimal.Panic.{◌>>=◌, mul, div}
use exg.Common.Error.{ExgError, insufficient_margin}
use exg.Common.Types.{PositionSide, long, short, both}
use exg.Risk.Types.{MarginTier, Position, Account, OrderInfo, SymbolConfig}

unfoldable pub calc_initial_margin : Decimal128 → Decimal128 → Option Decimal128
calc_initial_margin notional leverage = div notional leverage

-- notional * rate - amount, at a tier
unfoldable pub tier_margin : Decimal128 → MarginTier → Option Decimal128
tier_margin notional tier = do
  charge ← mul notional tier.maintenance_margin_rate
  some (sub charge tier.maintenance_amount)

unfoldable pub in_tier : Decimal128 → MarginTier → Bool
in_tier notional tier = le_dec tier.notional_floor notional && lt_dec notional tier.notional_cap

-- The loop over the tiers.
unfoldable pub first_tier : Decimal128 → List MarginTier → Option MarginTier
first_tier notional [] = none
first_tier notional (tier ∷ tiers) =
    let rest = first_tier notional tiers in if in_tier notional tier then some tier else rest

unfoldable pub last : List MarginTier → Option MarginTier
last [] = none
last (tier ∷ []) = some tier
last (tier ∷ next ∷ tiers) = last (next ∷ tiers)

-- The last tier, if its floor is reached.
unfoldable pub above_last : Decimal128 → Option MarginTier → Option Decimal128
above_last notional none = some zero_dec
above_last notional (some tier) =
    if le_dec tier.notional_floor notional then tier_margin notional tier else some zero_dec

unfoldable pub margin_at : Decimal128 → List MarginTier → Option MarginTier → Option Decimal128
unfolding above_last
margin_at notional tiers none = above_last notional (last tiers)
margin_at notional tiers (some tier) = tier_margin notional tier

unfoldable pub calc_maintenance_margin : Decimal128 → List MarginTier → Option Decimal128
unfolding margin_at
calc_maintenance_margin notional tiers = margin_at notional tiers (first_tier notional tiers)

unfoldable pub calc_liquidation_price :
    Decimal128
    → Decimal128
    → Decimal128
    → PositionSide
    → Decimal128
    → Decimal128
    → Option Decimal128
calc_liquidation_price entry_price leverage mmr side size accumulated_funding = do
  inv_leverage ← div one_dec leverage
  funding_per_unit ← div accumulated_funding size
  elim side [
    | long ↦ do
      base ← mul entry_price (add (sub one_dec inv_leverage) mmr)
      some (sub base funding_per_unit)
    | short ↦ do
      base ← mul entry_price (sub (add one_dec inv_leverage) mmr)
      some (add base funding_per_unit)
    | both ↦ do
      base ← mul entry_price (add (sub one_dec inv_leverage) mmr)
      some (sub base funding_per_unit)
  ]

-- The sum of the maintenance margins, in the order of the positions.
unfoldable pub total_maintenance : List Position → List MarginTier → Decimal128 → Option Decimal128
total_maintenance [] tiers acc = some acc
total_maintenance (p ∷ ps) tiers acc = do
  notional ← mul p.size p.entry_price
  margin ← calc_maintenance_margin notional tiers
  total_maintenance ps tiers (add acc margin)

unfoldable pub calc_margin_ratio : List Position → Decimal128 → List MarginTier → Option Decimal128
calc_margin_ratio positions wallet_balance tiers =
    let equity = add wallet_balance (sum (map (λ p. p.unrealized_pnl) positions) zero_dec) in
    if not (is_positive equity)
    then some max_dec
    else total_maintenance positions tiers zero_dec >>= λ total. div total equity

unfoldable pub calc_unrealized_pnl :
    Decimal128 → Decimal128 → Decimal128 → PositionSide → Option Decimal128
calc_unrealized_pnl entry_price mark_price size short = mul (sub entry_price mark_price) size
calc_unrealized_pnl entry_price mark_price size long = mul (sub mark_price entry_price) size
calc_unrealized_pnl entry_price mark_price size both = mul (sub mark_price entry_price) size

-- The result of a check: the error, or none.
unfoldable pub check_margin_sufficient :
    Account → OrderInfo → List Position → SymbolConfig → Option (Option ExgError)
check_margin_sufficient account order positions config = do
  order_notional ← mul order.price order.quantity
  required_margin ← calc_initial_margin order_notional config.max_leverage
  if lt_dec account.available_balance required_margin
      then some (some (insufficient_margin required_margin account.available_balance))
      else some none
