-- ===== src/Decimal/Bits.antt =====
-- The operations of decimal.rs on bit patterns: addition, subtraction and negation are those of
-- the integers modulo 2 ^ 128, whatever overflows.
use exg.Prelude.{◌∙◌, ℕ, ◌+◌, ◌-◌, ◌%◌, ◌<◌, ◌≡◌, arith, ℤ, pos, negsuc, ◌+ℤ◌, ◌-ℤ◌, List, [], ◌∷◌}
use exg.Decimal.{Decimal128, modulus, bits, signed, wrap, Fits, add, sub, neg}

pub bits-lt : (a : ℤ) → bits a < modulus
bits-lt (pos n) = omega arith
bits-lt (negsuc n) = omega arith

pub bits-signed : (w : ℕ) → w < modulus → bits (signed w) ≡ w
bits-signed w h = ground arith

pub bits-wrap : (a : ℤ) → bits (wrap a) ≡ bits a
unfolding wrap
bits-wrap a = bits-signed (bits a) (bits-lt a)

bits-+ℤ : (a b : ℤ) → bits (a +ℤ b) ≡ (bits a + bits b) % modulus
unfolding ◌+ℤ◌
bits-+ℤ (pos m) (pos n) = ground arith
bits-+ℤ (pos m) (negsuc n) = ground arith
bits-+ℤ (negsuc m) (pos n) = ground arith
bits-+ℤ (negsuc m) (negsuc n) = ground arith

bits--ℤ : (a b : ℤ) → bits (a -ℤ b) ≡ (bits a + (modulus - bits b)) % modulus
unfolding ◌-ℤ◌
bits--ℤ (pos m) (pos n) = ground arith
bits--ℤ (pos m) (negsuc n) = ground arith
bits--ℤ (negsuc m) (pos n) = ground arith
bits--ℤ (negsuc m) (negsuc n) = ground arith

pub bits-add : (a b : Decimal128) → bits (add a b) ≡ (bits a + bits b) % modulus
unfolding add
bits-add a b = bits-wrap (a +ℤ b) ∙ bits-+ℤ a b

pub bits-sub : (a b : Decimal128) → bits (sub a b) ≡ (bits a + (modulus - bits b)) % modulus
unfolding sub
bits-sub a b = bits-wrap (a -ℤ b) ∙ bits--ℤ a b

pub bits-neg : (a : Decimal128) → bits (neg a) ≡ (modulus - bits a) % modulus
unfolding neg
bits-neg a = omega (arith, bits-wrap (pos 0 -ℤ a), bits--ℤ (pos 0) a)

-- Every result is an `i128`.
pub wrap-Fits : (a : ℤ) → Fits (wrap a)
unfolding wrap
wrap-Fits a = ground (arith, bits-lt a)

-- On the range of an `i128` the bit pattern determines the value.
pub bits-injective : (a b : ℤ) → Fits a → Fits b → bits a ≡ bits b → a ≡ b
bits-injective a b ha hb e = ground arith

pub ruleset bits_laws = (arith, bits-add, bits-sub, bits-neg, bits-lt)
