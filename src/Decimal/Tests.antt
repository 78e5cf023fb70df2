-- ===== src/Decimal/Tests.antt =====
-- The theorems on crates/exg-common/src/decimal.rs, applied to concrete numbers.
use exg.Prelude.{ℕ, ◌+◌, ◌*◌, ◌<◌, ◌≡◌, arith, pos, negsuc, ◌*ℤ◌}
use exg.Decimal.{modulus, scale}
use exg.Decimal.Wide.{mul_u128, div_u256_by_u128, wide_mul_div, checked_mul, checked_div, tdiv}
use exg.Decimal.Wide.Product.{mul_u128_exact}
use exg.Decimal.Wide.Quotient.{div_u256_by_u128_exact}
use exg.Decimal.Wide.Checked.{wide_mul_div_exact, checked_mul_exact, checked_div_exact, in_range}

-- 10 ^ 30 times 10 ^ 30 does not fit in 128 bits
abbrev big : ℕ
big = 1000000000000000000000000000000

mul_u128_exact_example :
    let p = mul_u128 big big in
    (p.0 * modulus + p.1 ≡ big * big) × (p.0 < modulus) × (p.1 < modulus)
mul_u128_exact_example = mul_u128_exact big big (omega arith) (omega arith)

div_u256_by_u128_exact_example : div_u256_by_u128 5 7 big ≡ 1701411834
div_u256_by_u128_exact_example =
    div_u256_by_u128_exact 5 7 big (omega arith) (omega arith) (omega arith)

wide_mul_div_exact_example :
    wide_mul_div (pos big) (negsuc big) (pos 7) ≡ in_range (tdiv (pos big *ℤ negsuc big) (pos 7))
wide_mul_div_exact_example =
    wide_mul_div_exact (pos big) (negsuc big) (pos 7) (omega arith) (omega arith) (omega arith)
      (omega arith)

checked_mul_exact_example :
    checked_mul (pos big) (negsuc big) ≡ in_range (tdiv (pos big *ℤ negsuc big) (pos scale))
checked_mul_exact_example = checked_mul_exact (pos big) (negsuc big) (omega arith) (omega arith)

checked_div_exact_example :
    checked_div (negsuc big) (pos 7) ≡ in_range (tdiv (negsuc big *ℤ pos scale) (pos 7))
checked_div_exact_example = checked_div_exact (negsuc big) (pos 7) (omega arith) (omega arith)
