-- ===== src/Risk/Rates.antt =====
-- The clamp of the funding rate, crates/exg-risk-engine/src/funding.rs.
use exg.Prelude.{◌≡◌, arith, ◌≤ℤ◌, ◌<ℤ◌, ◌⊎◌, inl, inr, refl, Bool-cases, pos, negsuc}
use exg.Decimal.{Decimal128, add, min, max, le_dec}
use exg.Risk.Funding.{calc_funding_rate, upper_rate, lower_rate}

-- 0.0075 and -0.0075, on the scale of 10^18
abbrev pub most : Decimal128
most = pos 7500000000000000

abbrev pub least : Decimal128
least = negsuc 7499999999999999

-- A value between -0.0075 and 0.0075 stays, and one beyond a bound is the bound.
abbrev pub Clamped : Decimal128 → Decimal128 → Type 0
Clamped x r =
    (x <ℤ least) × (r ≡ least) ⊎ (most <ℤ x) × (r ≡ most) ⊎ (least ≤ℤ x) × (x ≤ℤ most) × (r ≡ x)

clamp_lem : (x : Decimal128) → Clamped x (min (max x lower_rate) upper_rate)
unfolding min max le_dec
clamp_lem x = elim (Bool-cases (le_dec lower_rate x)) [
  | inl above ↦ elim (Bool-cases (le_dec x upper_rate)) [
    | inl below ↦ rw above (rw below (inr (inr (ground arith, ground arith, refl))))
    | inr beyond ↦ rw above (rw beyond (inr (inl (ground arith, refl))))
  ]
  | inr under ↦ rw under (inl (ground arith, refl))
]

pub calc_funding_rate-Clamped :
    (premium_index interest_rate : Decimal128)
    → Clamped (add premium_index interest_rate) (calc_funding_rate premium_index interest_rate)
unfolding calc_funding_rate
calc_funding_rate-Clamped premium_index interest_rate = clamp_lem (add premium_index interest_rate)
