-- ===== src/Decimal.antt =====
-- `Decimal128` of crates/exg-common/src/decimal.rs: a fixed-point number with 18 fractional
-- digits on a raw `i128`. A decimal is its raw value here. The release profile of Cargo.toml sets
-- no `overflow-checks`, so `+`, `-` and unary `-` on the raw values wrap at 128 bits; a debug
-- build panics exactly where the wrapped result differs from the exact one.
pub mod Bits
pub mod Exact
pub mod Sign
pub mod Wide
pub mod Panic
mod Tests
use exg.Prelude.{
  ℕ, suc, ◌+◌, ◌-◌, ◌*◌, ◌/◌, ◌%◌, ◌^◌, ◌≤◌, ◌<◌, ℤ, pos, negsuc, pos_part, neg_part, ◌+ℤ◌, ◌-ℤ◌,
  ◌*ℤ◌, ◌≤ℤ◌, ltb_ℤ, leb_ℤ, eqb_ℤ, ltb, leb, ◌==◌, if◌then◌else◌, Bool, true, false, ◌&&◌, ◌||◌,
  not, Option, none, some, List, [], ◌∷◌,
}

abbrev pub Decimal128 : Type 0
Decimal128 = ℤ

-- 2 ^ 127 and 2 ^ 128, written out
abbrev pub half_range : ℕ
half_range = 170141183460469231731687303715884105728

abbrev pub modulus : ℕ
modulus = 340282366920938463463374607431768211456

abbrev pub scale : ℕ
scale = 1000000000000000000

abbrev pub zero_dec : Decimal128
zero_dec = pos 0

abbrev pub one_dec : Decimal128
one_dec = pos scale

-- `i128::MAX` and `i128::MIN`
abbrev pub max_dec : Decimal128
max_dec = pos 170141183460469231731687303715884105727

abbrev pub min_dec : Decimal128
min_dec = negsuc 170141183460469231731687303715884105727

-- the two's complement bit pattern of an integer, in 128 bits
abbrev pub bits : ℤ → ℕ
bits (pos n) = n % modulus
bits (negsuc n) = modulus - 1 - n % modulus

-- the `i128` that a bit pattern stands for
abbrev pub signed : ℕ → ℤ
signed w = if ltb w half_range then pos w else negsuc (modulus - w - 1)

unfoldable pub wrap : ℤ → ℤ
wrap z = signed (bits z)

-- The integers that an `i128` holds.
abbrev pub Fits : ℤ → Type 0
Fits z = (pos_part z < half_range) × (neg_part z ≤ half_range)

abbrev pub fits : ℤ → Bool
fits z = ltb (pos_part z) half_range && leb (neg_part z) half_range

unfoldable pub is_zero : Decimal128 → Bool
is_zero a = eqb_ℤ a (pos 0)

unfoldable pub is_positive : Decimal128 → Bool
is_positive a = ltb_ℤ (pos 0) a

unfoldable pub is_negative : Decimal128 → Bool
is_negative a = ltb_ℤ a (pos 0)

unfoldable pub lt_dec : Decimal128 → Decimal128 → Bool
lt_dec a b = ltb_ℤ a b

unfoldable pub le_dec : Decimal128 → Decimal128 → Bool
le_dec a b = leb_ℤ a b

unfoldable pub eq_dec : Decimal128 → Decimal128 → Bool
eq_dec a b = eqb_ℤ a b

-- `impl Add`, `impl Sub` and `impl Neg`
unfoldable pub add : Decimal128 → Decimal128 → Decimal128
unfolding wrap ◌+ℤ◌
add a b = wrap (a +ℤ b)

unfoldable pub sub : Decimal128 → Decimal128 → Decimal128
unfolding wrap ◌-ℤ◌
sub a b = wrap (a -ℤ b)

unfoldable pub neg : Decimal128 → Decimal128
unfolding wrap ◌-ℤ◌
neg a = wrap (pos 0 -ℤ a)

-- `i128::MIN.abs()` wraps back to `i128::MIN`.
unfoldable pub abs : Decimal128 → Decimal128
unfolding is_negative neg
abs a = if is_negative a then neg a else a

unfoldable pub min : Decimal128 → Decimal128 → Decimal128
unfolding le_dec
min a b = if le_dec a b then a else b

unfoldable pub max : Decimal128 → Decimal128 → Decimal128
unfolding le_dec
max a b = if le_dec b a then a else b

unfoldable pub checked_add : Decimal128 → Decimal128 → Option Decimal128
unfolding ◌+ℤ◌
checked_add a b = if fits (a +ℤ b) then some (a +ℤ b) else none

unfoldable pub checked_sub : Decimal128 → Decimal128 → Option Decimal128
unfolding ◌-ℤ◌
checked_sub a b = if fits (a -ℤ b) then some (a -ℤ b) else none

-- the value that a saturating operation of `i128` gives for an exact result
unfoldable pub saturate : ℤ → Decimal128
saturate z =
    if leb half_range (pos_part z)
    then max_dec
    else if ltb half_range (neg_part z)
    then min_dec
    else z

unfoldable pub saturating_add : Decimal128 → Decimal128 → Decimal128
unfolding saturate ◌+ℤ◌
saturating_add a b = saturate (a +ℤ b)

unfoldable pub saturating_sub : Decimal128 → Decimal128 → Decimal128
unfolding saturate ◌-ℤ◌
saturating_sub a b = saturate (a -ℤ b)

-- `impl Sum`: a fold from zero
unfoldable pub sum : List Decimal128 → Decimal128 → Decimal128
unfolding add
sum [] acc = acc
sum (x ∷ xs) acc = sum xs (add acc x)
