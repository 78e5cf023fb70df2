-- ===== src/Decimal/Wide.antt =====
-- Multiplication and division of decimal.rs, with the 256-bit intermediate product.
-- A machine product or sum is reduced modulo 2 ^ 128 where the source's operation could wrap;
-- `x & (2 ^ 64 - 1)` is `x % 2 ^ 64`, and `x >> 64` is `x / 2 ^ 64`.
use exg.Prelude.{
  ℕ, zero, suc, ◌+◌, ◌-◌, ◌*◌, ◌/◌, ◌%◌, ◌^◌, ℤ, pos, negsuc, pos_part, neg_part, ◌*ℤ◌, ltb_ℤ, ltb,
  leb, ◌==◌, if◌then◌else◌, Bool, true, false, ◌||◌, Option, none, some, sub_ℕ,
}
use exg.Decimal.{Decimal128, modulus, half_range, scale, fits, is_negative, min_dec}
pub mod Product
pub mod Quotient
pub mod Checked

-- 2 ^ 64
abbrev pub word : ℕ
word = 18446744073709551616

-- Full 128 by 128 to 256 bit multiply: (hi, lo).
unfoldable pub mul_u128 : ℕ → ℕ → ℕ × ℕ
mul_u128 a b =
    let a_lo = a % word in
    let a_hi = a / word in
    let b_lo = b % word in
    let b_hi = b / word in
    let ll = a_lo * b_lo % modulus in
    let lh = a_lo * b_hi % modulus in
    let hl = a_hi * b_lo % modulus in
    let hh = a_hi * b_hi % modulus in
    let mid_sum = (lh + hl) % modulus in
    let mid_carry : ℕ = if ltb mid_sum lh then 1 else 0 in
    let lo = (ll + mid_sum * word % modulus) % modulus in
    let carry_from_lo : ℕ = if ltb lo ll then 1 else 0 in
    let hi =
      (((hh + mid_sum / word) % modulus + mid_carry * word % modulus) % modulus + carry_from_lo)
      % modulus in
    (hi, lo)

-- One round of the long division, for bit `i` of the quotient. The shifted remainder is even and
-- bit `i` of the quotient is still 0, so the source's `|` adds.
unfoldable pub div_step : ℕ → ℕ → ℕ → ℕ → ℕ → ℕ × ℕ
div_step lo d i rem quot =
    let bit = lo / 2 ^ i % 2 in
    let overflow = leb half_range rem in
    let rem' = rem * 2 % modulus + bit in
    if overflow || leb d rem'
    then ((rem' + (modulus - d)) % modulus, quot + 2 ^ i)
    else (rem', quot)

-- The loop, with `i` bits left.
unfoldable pub div_loop : ℕ → ℕ → ℕ → ℕ → ℕ → ℕ
unfolding div_step
div_loop lo d zero rem quot = quot
div_loop lo d (suc i) rem quot = let r = div_step lo d i rem quot in div_loop lo d i r.0 r.1

-- The caller never passes `d = 0`, at which the source panics; the quotient is then saturated.
unfoldable pub div_u256_by_u128 : ℕ → ℕ → ℕ → ℕ
div_u256_by_u128 hi lo d =
    let long = div_loop lo d 128 hi 0 in
    if hi == 0 then lo / d else if leb d hi then modulus - 1 else long

-- `unsigned_abs`
abbrev pub unsigned_abs : ℤ → ℕ
unsigned_abs (pos n) = n
unsigned_abs (negsuc n) = suc n

-- `^` on Booleans
abbrev pub differ : Bool → Bool → Bool
differ true true = false
differ true false = true
differ false b = b

unfoldable pub signed_quotient : Bool → ℕ → Option Decimal128
signed_quotient true quot =
    if ltb half_range quot
    then none
    else if quot == half_range
    then some min_dec
    else some (sub_ℕ 0 quot)
signed_quotient false quot = if leb half_range quot then none else some (pos quot)

unfoldable pub wide_mul_div : ℤ → ℤ → ℤ → Option Decimal128
unfolding signed_quotient is_negative
wide_mul_div a b d =
    let negative = differ (differ (is_negative a) (is_negative b)) (is_negative d) in
    let prod = mul_u128 (unsigned_abs a) (unsigned_abs b) in
    signed_quotient negative (div_u256_by_u128 prod.0 prod.1 (unsigned_abs d))

-- the integer of a sign and a magnitude
abbrev pub with_sign : Bool → ℕ → ℤ
with_sign true q = sub_ℕ 0 q
with_sign false q = pos q

-- `/` on `i128`: the quotient of the magnitudes, with the sign of the exact quotient.
unfoldable pub tdiv : ℤ → ℤ → ℤ
unfolding is_negative
tdiv a d = with_sign (differ (is_negative a) (is_negative d)) (unsigned_abs a / unsigned_abs d)

unfoldable pub checked_mul : Decimal128 → Decimal128 → Option Decimal128
checked_mul a b =
    let wide = wide_mul_div a b (pos scale) in
    if fits (a *ℤ b) then some (tdiv (a *ℤ b) (pos scale)) else wide

unfoldable pub checked_div : Decimal128 → Decimal128 → Option Decimal128
checked_div a b =
    let wide = wide_mul_div a (pos scale) b in
    if unsigned_abs b == 0
    then none
    else if fits (a *ℤ pos scale)
    then some (tdiv (a *ℤ pos scale) b)
    else wide
