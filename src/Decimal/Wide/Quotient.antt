-- ===== src/Decimal/Wide/Quotient.antt =====
-- The long division `div_u256_by_u128` of decimal.rs against the exact quotient.
use exg.Prelude.{
  ℕ, zero, suc, ◌+◌, ◌-◌, ◌*◌, ◌/◌, ◌%◌, ◌^◌, ◌≤◌, ◌<◌, ◌≡◌, ◌∙◌, ap, arith, ◌⊎◌, inl, inr, ltb,
  leb, if◌then◌else◌, Bool-cases, leb→le,
}
use native.Mathlib.Nat.{
  mod-lt, add-mul-div_right, mod-eq_of_lt, div-add-mod', pow-suc, div-eq_of_lt,
  add-mul-mod_self_right, div-lt_iff_lt-mul, le-div_iff_mul-le,
}
use exg.Decimal.{modulus}
use exg.Decimal.Wide.{div_step, div_loop, div_u256_by_u128}

-- What one round does: it doubles the remainder, brings in a bit, and takes `d` off if it can.
div_step-cases :
    (lo d i rem quot : ℕ)
    → rem < d
    → d < modulus
    → let r = div_step lo d i rem quot in
      ((r.0 ≡ 2 * rem + lo / 2 ^ i % 2) × (r.1 ≡ quot) × (r.0 < d))
      ⊎ ((r.0 + d ≡ 2 * rem + lo / 2 ^ i % 2) × (r.1 ≡ quot + 2 ^ i) × (r.0 < d))
unfolding div_step
div_step-cases lo d i rem quot h k = ground arith

pow_pos : (i : ℕ) → 0 < 2 ^ i
pow_pos zero = omega arith
pow_pos (suc i) = rw (pow-suc 2 i) (omega (arith, pow_pos i))

low_part : (lo p : ℕ) → 0 < p → lo % (p * 2) ≡ lo / p % 2 * p + lo % p
low_part lo p h =
    let e : lo ≡ lo / p % 2 * p + lo % p + lo / p / 2 * (p * 2) = split_lo in
    let below : lo / p % 2 * p + lo % p < p * 2 = grind (arith, mod-lt lo h) in
    ap (λ (t : ℕ). t % (p * 2)) e
    ∙ (add-mul-mod_self_right (lo / p % 2 * p + lo % p) (lo / p / 2) (p * 2) ∙ mod-eq_of_lt below)
  where
    halve : lo / p * p ≡ lo / p % 2 * p + lo / p / 2 * (p * 2)
    halve =
        let parts : lo / p ≡ lo / p % 2 + lo / p / 2 * 2 = omega arith in
        omega (arith, ap (λ (t : ℕ). t * p) parts)

    split_lo : lo ≡ lo / p % 2 * p + lo % p + lo / p / 2 * (p * 2)
    split_lo = omega (arith, halve, div-add-mod' lo p)

-- Dividing what the round has taken in.
quotient_step :
    (d p rem c rem' bit low : ℕ)
    → 0 < d
    → rem' + c * d ≡ 2 * rem + bit
    → (rem * (p * 2) + (bit * p + low)) / d ≡ (rem' * p + low) / d + c * p
quotient_step d p rem c rem' bit low h e =
    ap (λ (t : ℕ). t / d) expand ∙ add-mul-div_right (rem' * p + low) (c * p) h
  where
    expand : rem * (p * 2) + (bit * p + low) ≡ rem' * p + low + c * p * d
    expand = omega (arith, ap (λ (t : ℕ). t * p) e)

-- The loop divides the remainder so far, followed by the low bits that are left.
div_loop_lem :
    (lo d i rem quot : ℕ)
    → rem < d
    → d < modulus
    → div_loop lo d i rem quot ≡ quot + (rem * 2 ^ i + lo % 2 ^ i) / d
unfolding div_loop
div_loop_lem lo d zero rem quot h k =
    omega (arith, div-eq_of_lt {n = rem * 2 ^ 0 + lo % 2 ^ 0} {m = d} (omega arith))
div_loop_lem lo d (suc i) rem quot h k =
    let r = div_step lo d i rem quot in
    let bit = lo / 2 ^ i % 2 in
    let low : lo % 2 ^ suc i ≡ bit * 2 ^ i + lo % 2 ^ i =
      rw (pow-suc 2 i) (low_part lo (2 ^ i) (pow_pos i)) in
    elim (div_step-cases lo d i rem quot h k) [
      | inl (e, q, b) ↦
          div_loop_lem lo d i r.0 r.1 b k
          ∙ rw (low, pow-suc 2 i)
              (omega (
                arith,
                q,
                quotient_step d (2 ^ i) rem 0 r.0 bit (lo % 2 ^ i) (omega arith) (omega arith),
              ))
      | inr (e, q, b) ↦
          div_loop_lem lo d i r.0 r.1 b k
          ∙ rw (low, pow-suc 2 i)
              (omega (
                arith,
                q,
                quotient_step d (2 ^ i) rem 1 r.0 bit (lo % 2 ^ i) (omega arith) (omega arith),
              ))
    ]

-- For a low half and a positive divisor below 2 ^ 128: where the quotient fits in 128 bits it is
-- exact, and otherwise `u128::MAX` stands for it.
pub div_u256_by_u128_exact :
    (hi lo d : ℕ)
    → 0 < d
    → d < modulus
    → lo < modulus
    → div_u256_by_u128 hi lo d
      ≡ (if ltb ((hi * modulus + lo) / d) modulus then (hi * modulus + lo) / d else modulus - 1)
unfolding div_u256_by_u128
div_u256_by_u128_exact hi lo d h k l = elim (Bool-cases (leb d hi)) [
  | inl big ↦
      let above : modulus ≤ (hi * modulus + lo) / d =
        (le-div_iff_mul-le h).1 (omega (arith, leb→le d hi big)) in
      ground (arith, leb→le d hi big)
  | inr small ↦
      let under : hi < d = ground arith in
      let fit : (hi * modulus + lo) / d < modulus = (div-lt_iff_lt-mul h).1 (omega arith) in
      let long : div_loop lo d 128 hi 0 ≡ (hi * modulus + lo) / d =
        rw (div_loop_lem lo d 128 hi 0 under k, mod-eq_of_lt l) (omega arith) in
      ground (arith, long, fit, under)
]
