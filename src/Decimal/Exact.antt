-- ===== src/Decimal/Exact.antt =====
-- The wrapping operations of decimal.rs where the exact result fits.
use exg.Prelude.{◌≡◌, arith, ℤ, ◌+ℤ◌, ◌-ℤ◌}
use exg.Decimal.{Decimal128, wrap, Fits, add, sub}

pub wrap_exact : (z : ℤ) → Fits z → wrap z ≡ z
unfolding wrap
wrap_exact z h = ground arith

pub add_exact : (a b : Decimal128) → Fits (a +ℤ b) → add a b ≡ a +ℤ b
unfolding add
add_exact a b h = wrap_exact (a +ℤ b) h

pub sub_exact : (a b : Decimal128) → Fits (a -ℤ b) → sub a b ≡ a -ℤ b
unfolding sub
sub_exact a b h = wrap_exact (a -ℤ b) h
