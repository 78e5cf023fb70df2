-- ===== src/Decimal/Sign.antt =====
-- The sign tests of decimal.rs.
use exg.Prelude.{
  ℕ, zero, suc, refl, ap, sym, ◌-ℤ◌, ◌∙◌, ◌-◌, ◌%◌, ◌≡◌, inl, inr, arith, true, false, ◌≤ℤ◌, ◌<ℤ◌,
  pos, negsuc, Bool-cases,
}
use exg.Decimal.{
  Decimal128, Fits, sub, modulus, bits, is_zero, is_positive, is_negative, abs, neg, min, lt_dec,
  le_dec,
}
use exg.Decimal.Bits.{bits-neg, bits-sub, bits_laws}
use exg.Decimal.Exact.{sub_exact}

-- What the three tests say of a decimal, by its sign.
pub data Sign (a : Decimal128) : Type 0 where
  positive :
      is_positive a ≡ true
      → is_negative a ≡ false
      → is_zero a ≡ false
      → bits (abs a) ≡ bits a
      → pos 1 ≤ℤ a
      → Sign a
  negative :
      is_positive a ≡ false
      → is_negative a ≡ true
      → is_zero a ≡ false
      → bits (abs a) ≡ (modulus - bits a) % modulus
      → a <ℤ pos 0
      → Sign a
  none : is_positive a ≡ false → is_negative a ≡ false → is_zero a ≡ true → a ≡ pos 0 → Sign a

abs_of_negative : (a : Decimal128) → is_negative a ≡ true → abs a ≡ neg a
unfolding abs
abs_of_negative a h = rw h

abs_of_not_negative : (a : Decimal128) → is_negative a ≡ false → abs a ≡ a
unfolding abs
abs_of_not_negative a h = rw h

positive-negsuc : (n : ℕ) → is_positive (negsuc n) ≡ false
unfolding is_positive
positive-negsuc n = ground arith

negative-negsuc : (n : ℕ) → is_negative (negsuc n) ≡ true
unfolding is_negative
negative-negsuc n = ground arith

zero-negsuc : (n : ℕ) → is_zero (negsuc n) ≡ false
unfolding is_zero
zero-negsuc n = ground arith

positive-pos : (n : ℕ) → is_positive (pos (suc n)) ≡ true
unfolding is_positive
positive-pos n = ground arith

negative-pos : (n : ℕ) → is_negative (pos n) ≡ false
unfolding is_negative
negative-pos n = ground arith

zero-pos : (n : ℕ) → is_zero (pos (suc n)) ≡ false
unfolding is_zero
zero-pos n = ground arith

positive_zero : is_positive (pos 0) ≡ false
unfolding is_positive
positive_zero = refl

zero_zero : is_zero (pos 0) ≡ true
unfolding is_zero
zero_zero = refl

pub Sign-of : (a : Decimal128) → Sign a
Sign-of (pos zero) = none positive_zero (negative-pos 0) zero_zero refl
Sign-of (pos (suc n)) =
    positive (positive-pos n) (negative-pos (suc n)) (zero-pos n)
      (ap bits (abs_of_not_negative (pos (suc n)) (negative-pos (suc n)))) (omega arith)
Sign-of (negsuc n) =
    negative (positive-negsuc n) (negative-negsuc n) (zero-negsuc n)
      (ap bits (abs_of_negative (negsuc n) (negative-negsuc n)) ∙ bits-neg (negsuc n)) (omega arith)

pub not_negative : (a : Decimal128) → is_negative a ≡ false → pos 0 ≤ℤ a
unfolding is_negative
not_negative a h = ground arith

pub is_negative-false : (a : Decimal128) → pos 0 ≤ℤ a → is_negative a ≡ false
unfolding is_negative
is_negative-false a h = ground arith

pub is_positive-lt : (a : Decimal128) → is_positive a ≡ true → pos 0 <ℤ a
unfolding is_positive
is_positive-lt a h = ground arith

pub lt_dec-false : (a b : Decimal128) → lt_dec a b ≡ false → b ≤ℤ a
unfolding lt_dec
lt_dec-false a b h = ground arith

-- A fee that passed the check is positive, or zero bits.
pub fee_bits : (a : Decimal128) → is_negative a ≡ false → is_positive a ≡ false → bits a ≡ 0
unfolding is_negative is_positive
fee_bits a n p = ground arith

min_of_le : (a b : Decimal128) → le_dec a b ≡ true → min a b ≡ a
unfolding min
min_of_le a b h = rw h

min_of_gt : (a b : Decimal128) → le_dec a b ≡ false → min a b ≡ b
unfolding min
min_of_gt a b h = rw h

exact_is_positive : (a b : Decimal128) → le_dec a b ≡ false → is_positive (a -ℤ b) ≡ true
unfolding le_dec is_positive ◌-ℤ◌
exact_is_positive a b h = ground arith

-- What a payment leaves to take elsewhere, if it is not positive, is nothing.
pub rest_bits :
    (a b : Decimal128)
    → Fits (a -ℤ b)
    → is_positive (sub a (min a b)) ≡ false
    → bits (sub a (min a b)) ≡ 0
rest_bits a b fit h = elim (Bool-cases (le_dec a b)) [
  | inl le ↦ rw (min_of_le a b le) (omega (bits_laws, bits-sub a a))
  | inr gt ↦
      let e : is_positive (a -ℤ b) ≡ false =
        ap is_positive (sym (sub_exact a b fit)) ∙ rw (min_of_gt a b gt) at h in
      cc (exact_is_positive a b gt)
]
