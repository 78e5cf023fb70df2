-- ===== src/Decimal/Wide/Checked.antt =====
-- `checked_mul`, `checked_div` and `wide_mul_div` of decimal.rs against the exact quotient.
use exg.Prelude.{
  ℕ, zero, suc, ◌-◌, ◌*◌, ◌/◌, ◌≤◌, ◌<◌, ◌≡◌, ◌≢◌, ◌∙◌, sym, ap, arith, ℤ, pos, negsuc, ◌*ℤ◌, ltb,
  ◌==◌, if◌then◌else◌, Bool, true, false, Bool-cases, Option, none, some, inl, inr, refl,
}
use native.Mathlib.Nat.{zero-div, div-le_self}
use exg.Decimal.{Decimal128, modulus, half_range, scale, Fits, fits, is_negative}
use exg.Decimal.Wide.{
  mul_u128, div_u256_by_u128, wide_mul_div, signed_quotient, differ, unsigned_abs, with_sign, tdiv,
  checked_mul, checked_div,
}
use exg.Decimal.Wide.Product.{mul_u128_exact}
use exg.Decimal.Wide.Quotient.{div_u256_by_u128_exact}

-- an exact result, where an `i128` holds it
abbrev pub in_range : ℤ → Option Decimal128
in_range z = if fits z then some z else none

is_negative-pos : (n : ℕ) → is_negative (pos n) ≡ false
unfolding is_negative
is_negative-pos n = ground arith

is_negative-negsuc : (n : ℕ) → is_negative (negsuc n) ≡ true
unfolding is_negative
is_negative-negsuc n = ground arith

*ℤ_sign :
    (a b : ℤ)
    → a *ℤ b ≡ with_sign (differ (is_negative a) (is_negative b)) (unsigned_abs a * unsigned_abs b)
unfolding ◌*ℤ◌
*ℤ_sign (pos m) (pos n) = rw (is_negative-pos m, is_negative-pos n) (ground arith)
*ℤ_sign (pos m) (negsuc n) = rw (is_negative-pos, is_negative-negsuc) (ground arith)
*ℤ_sign (negsuc m) (pos n) = rw (is_negative-pos, is_negative-negsuc) (ground arith)
*ℤ_sign (negsuc m) (negsuc n) = rw (is_negative-negsuc m, is_negative-negsuc n) (ground arith)

with_sign-zero : (s : Bool) → with_sign s 0 ≡ pos 0
with_sign-zero true = refl
with_sign-zero false = refl

with_sign-suc : (p : ℕ) → with_sign true (suc p) ≡ negsuc p
with_sign-suc p = ground arith

unsigned_abs-with_sign : (s : Bool) (q : ℕ) → unsigned_abs (with_sign s q) ≡ q
unsigned_abs-with_sign true zero = refl
unsigned_abs-with_sign true (suc q) = ap unsigned_abs (with_sign-suc q)
unsigned_abs-with_sign false q = refl

unsigned_abs-* : (a b : ℤ) → unsigned_abs (a *ℤ b) ≡ unsigned_abs a * unsigned_abs b
unsigned_abs-* a b = ap unsigned_abs (*ℤ_sign a b) ∙ unsigned_abs-with_sign _ _

tdiv-zero : (d : ℤ) → tdiv (pos 0) d ≡ pos 0
unfolding tdiv
tdiv-zero d = rw (zero-div (unsigned_abs d)) (with_sign-zero _)

tdiv-with_sign :
    (s : Bool) (p : ℕ) (d : ℤ)
    → tdiv (with_sign s p) d ≡ with_sign (differ s (is_negative d)) (p / unsigned_abs d)
unfolding tdiv
tdiv-with_sign false p d = rw is_negative-pos
tdiv-with_sign true zero d = tdiv-zero d ∙ sym (rw (zero-div (unsigned_abs d)) (with_sign-zero _))
tdiv-with_sign true (suc p) d = rw with_sign-suc (rw (is_negative-negsuc p))

abbrev saturated : ℕ → ℕ
saturated q = if ltb q modulus then q else modulus - 1

signed_quotient-saturated :
    (s : Bool) (q : ℕ) → signed_quotient s (saturated q) ≡ in_range (with_sign s q)
unfolding signed_quotient
signed_quotient-saturated true q = ground arith
signed_quotient-saturated false q = ground arith

abs-lt : (z : ℤ) → Fits z → unsigned_abs z < modulus
abs-lt (pos n) h = omega arith
abs-lt (negsuc n) h = omega arith

-- For `i128` values and a nonzero divisor, `wide_mul_div` is the truncated quotient of the exact
-- product, and `None` exactly where that is no `i128`.
pub wide_mul_div_exact :
    (a b d : ℤ)
    → Fits a
    → Fits b
    → Fits d
    → unsigned_abs d ≢ 0
    → wide_mul_div a b d ≡ in_range (tdiv (a *ℤ b) d)
unfolding wide_mul_div
wide_mul_div_exact a b d ha hb hd ne =
    let prod = mul_u128 (unsigned_abs a) (unsigned_abs b) in
    let exact = mul_u128_exact (unsigned_abs a) (unsigned_abs b) (abs-lt a ha) (abs-lt b hb) in
    let negative = differ (is_negative a) (is_negative b) in
    let quotient : div_u256_by_u128 prod.0 prod.1 (unsigned_abs d)
        ≡ saturated (unsigned_abs a * unsigned_abs b / unsigned_abs d) =
      div_u256_by_u128_exact prod.0 prod.1 (unsigned_abs d) (omega arith) (abs-lt d hd) exact.2
      ∙ ap (λ (t : ℕ). saturated (t / unsigned_abs d)) exact.0 in
    ap (signed_quotient (differ negative (is_negative d))) quotient
    ∙ (signed_quotient-saturated (differ negative (is_negative d)) _
        ∙ ap in_range (
            sym (
              ap (λ t. tdiv t d) (*ℤ_sign a b)
              ∙ tdiv-with_sign negative (unsigned_abs a * unsigned_abs b) d)))

in_range_small :
    (s : Bool) (q : ℕ) → q < half_range → in_range (with_sign s q) ≡ some (with_sign s q)
in_range_small true q h = ground arith
in_range_small false q h = ground arith

-- A quotient of a small enough magnitude is an `i128`.
in_range-tdiv :
    (z d : ℤ) → unsigned_abs z / unsigned_abs d < half_range → in_range (tdiv z d) ≡ some (tdiv z d)
unfolding tdiv
in_range-tdiv z d h = in_range_small _ _ h

abs_of_fits : (z : ℤ) → fits z ≡ true → unsigned_abs z ≤ half_range
abs_of_fits (pos n) h = ground arith
abs_of_fits (negsuc n) h = ground arith

-- On `i128` values, multiplication truncates the exact product over the scale, and fails exactly
-- where the result is no `i128`.
pub checked_mul_exact :
    (a b : Decimal128) → Fits a → Fits b → checked_mul a b ≡ in_range (tdiv (a *ℤ b) (pos scale))
unfolding checked_mul
checked_mul_exact a b ha hb = elim (Bool-cases (fits (a *ℤ b))) [
  | inl fast ↦
      rw fast (sym (in_range-tdiv (a *ℤ b) (pos scale) (omega (arith, abs_of_fits (a *ℤ b) fast))))
  | inr slow ↦ rw slow (wide_mul_div_exact a b (pos scale) ha hb (omega arith) (omega arith))
]

-- On `i128` values, division truncates the exact quotient of the scaled dividend; it fails on a zero divisor, and
-- otherwise exactly where the result is no `i128`.
pub checked_div_exact :
    (a b : Decimal128)
    → Fits a
    → Fits b
    → checked_div a b ≡ (if unsigned_abs b == 0 then none else in_range (tdiv (a *ℤ pos scale) b))
unfolding checked_div
checked_div_exact a b ha hb = elim (Bool-cases (unsigned_abs b == 0)) [
  | inl none_left ↦ rw none_left
  | inr some_left ↦ rw some_left (elim (Bool-cases (fits (a *ℤ pos scale))) [
    | inl fast ↦ rw fast (sym (in_range-tdiv (a *ℤ pos scale) b (narrow fast)))
    | inr slow ↦ rw slow (wide_mul_div_exact a (pos scale) b ha (omega arith) hb (ground arith))
  ])
]
  where
    -- 2 ^ 127 is no multiple of 10 ^ 18, so the scaled dividend is not `i128::MIN`.
    narrow :
        fits (a *ℤ pos scale) ≡ true → unsigned_abs (a *ℤ pos scale) / unsigned_abs b < half_range
    narrow fast = omega (
      arith,
      unsigned_abs-* a (pos scale),
      abs_of_fits (a *ℤ pos scale) fast,
      div-le_self (unsigned_abs (a *ℤ pos scale)) (unsigned_abs b),
    )
