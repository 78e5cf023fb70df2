-- ===== src/Risk/Funding.antt =====
-- Funding, crates/exg-risk-engine/src/funding.rs.
use exg.Prelude.{true, false, pos, negsuc, Option, none, some, List, [], ◌∷◌}
use exg.Decimal.{Decimal128, zero_dec, add, sub, neg, min, max, le_dec}
use exg.Decimal.Panic.{◌>>=◌, mul, div, from_i64}
use exg.Common.Types.{PositionSide, long, short, both}

-- The loop over the levels, with what is left to fill, the weighted sum and the quantity so far.
unfoldable pub fill_levels :
    List (Decimal128 × Decimal128)
    → Decimal128
    → Decimal128
    → Decimal128
    → Option (Option Decimal128)
fill_levels [] remaining weighted_sum total_qty = some none
fill_levels ((price, qty) ∷ levels) remaining weighted_sum total_qty =
    mul price qty >>= λ level_notional. elim (le_dec remaining level_notional) [
      | true ↦ do
        fill_qty ← div remaining price
        fill_notional ← mul fill_qty price
        vwap ← div (add weighted_sum fill_notional) (add total_qty fill_qty)
        some (some vwap)
      | false ↦ mul qty price >>= λ notional.
          fill_levels levels (sub remaining level_notional) (add weighted_sum notional)
            (add total_qty qty)
    ]

-- The inner `none` is the source's `None`: not enough liquidity.
unfoldable pub calc_impact_price :
    List (Decimal128 × Decimal128) → Decimal128 → Option (Option Decimal128)
unfolding fill_levels
calc_impact_price levels target_notional = fill_levels levels target_notional zero_dec zero_dec

unfoldable pub calc_impact_mid_price :
    List (Decimal128 × Decimal128)
    → List (Decimal128 × Decimal128)
    → Decimal128
    → Option (Option Decimal128)
calc_impact_mid_price bids asks impact_notional = calc_impact_price bids impact_notional >>= λ bid.
    elim bid [
      | none ↦ some none
      | some impact_bid ↦ calc_impact_price asks impact_notional >>= λ ask. elim ask [
        | none ↦ some none
        | some impact_ask ↦ do
          mid ← div (add impact_bid impact_ask) (from_i64 (pos 2))
          some (some mid)
      ]
    ]

unfoldable pub calc_premium_index : Decimal128 → Decimal128 → Option Decimal128
calc_premium_index impact_mid index_price = div (sub impact_mid index_price) index_price

-- "0.0075" and "-0.0075"
abbrev pub upper_rate : Decimal128
upper_rate = pos 7500000000000000

abbrev pub lower_rate : Decimal128
lower_rate = negsuc 7499999999999999

unfoldable pub calc_funding_rate : Decimal128 → Decimal128 → Decimal128
unfolding min max le_dec
calc_funding_rate premium_index interest_rate =
    min (max (add premium_index interest_rate) lower_rate) upper_rate

unfoldable pub calc_funding_fee :
    Decimal128 → Decimal128 → Decimal128 → PositionSide → Option Decimal128
calc_funding_fee position_size mark_price funding_rate side = do
  notional ← mul position_size mark_price
  fee ← mul notional funding_rate
  some (elim side [ long ↦ fee | short ↦ neg fee | both ↦ fee ])
