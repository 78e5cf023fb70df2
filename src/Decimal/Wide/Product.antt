-- ===== src/Decimal/Wide/Product.antt =====
-- The product of two 128-bit words, `mul_u128` of decimal.rs.
use exg.Prelude.{ℕ, ◌+◌, ◌*◌, ◌/◌, ◌%◌, ◌≤◌, ◌<◌, ◌≡◌, ◌∙◌, sym, arith, ltb, if◌then◌else◌}
use mathlib.Core.Path.{ap₂}
use native.Mathlib.Nat.{mod-eq_of_lt, mod-lt}
use exg.Decimal.{modulus}
use exg.Decimal.Wide.{word, mul_u128}

prod_bound : (x y : ℕ) → x < word → y < word → x * y ≤ 340282366920938463426481119284349108225
prod_bound x y h k = grind arith

-- the product of two numbers given by their halves
abbrev halves : ℕ → ℕ → ℕ → ℕ → ℕ
halves ll lh hl hh = hh * modulus + (lh + hl) * word + ll

halves_sum :
    (ah al bh bl : ℕ)
    → (ah * word + al) * (bh * word + bl) ≡ halves (al * bl) (al * bh) (ah * bl) (ah * bh)
halves_sum ah al bh bl = omega arith

halves_lem :
    (a b : ℕ)
    → a * b
      ≡ halves
          (a % word * (b % word))
          (a % word * (b / word))
          (a / word * (b % word))
          (a / word * (b / word))
halves_lem a b =
    let ea : a ≡ a / word * word + a % word = omega arith in
    let eb : b ≡ b / word * word + b % word = omega arith in
    ap₂ ◌*◌ ea eb ∙ halves_sum (a / word) (a % word) (b / word) (b % word)

-- With its carries written as numbers the high half is exact.
high_half :
    (ll lh hl hh c1 c2 mh ml lo : ℕ)
    → lh + hl ≡ c1 * modulus + (mh * word + ml)
    → ll + ml * word ≡ c2 * modulus + lo
    → halves ll lh hl hh < modulus * modulus
    → (((hh + mh) % modulus + c1 * word % modulus) % modulus + c2) % modulus * modulus + lo
      ≡ halves ll lh hl hh
high_half ll lh hl hh c1 c2 mh ml lo e f fit = omega arith

carry_of_sum :
    (x y : ℕ)
    → x < modulus
    → y < modulus
    → x + y ≡ (if ltb ((x + y) % modulus) x then 1 else 0) * modulus + (x + y) % modulus
carry_of_sum x y h k = ground arith

shift_word : (m : ℕ) → m < modulus → m * word % modulus ≡ m % word * word
shift_word m h = omega arith

-- The carries are exact when the true product has 256 bits.
carries :
    (ll lh hl hh : ℕ)
    → ll < modulus
    → lh < modulus
    → hl < modulus
    → halves ll lh hl hh < modulus * modulus
    → let mid = (lh + hl) % modulus in
      let lo = (ll + mid * word % modulus) % modulus in
      (((hh + mid / word) % modulus + (if ltb mid lh then 1 else 0) * word % modulus) % modulus
            + (if ltb lo ll then 1 else 0))
          % modulus
          * modulus
        + lo
      ≡ halves ll lh hl hh
carries ll lh hl hh p q r fit =
    let mid = (lh + hl) % modulus in
    let lo = (ll + mid * word % modulus) % modulus in
    high_half ll lh hl hh (if ltb mid lh then 1 else 0) (if ltb lo ll then 1 else 0) (mid / word)
      (mid % word) lo (omega (arith, carry_of_sum lh hl q r))
      (omega (
        arith,
        carry_of_sum ll (mid * word % modulus) p (omega arith),
        shift_word mid (omega arith),
      ))
      fit

-- Of two numbers below 2 ^ 128, the two halves returned, each below 2 ^ 128, make up the product.
pub mul_u128_exact :
    (a b : ℕ)
    → a < modulus
    → b < modulus
    → let (hi, lo) = mul_u128 a b in (hi * modulus + lo ≡ a * b) × (hi < modulus) × (lo < modulus)
unfolding mul_u128
mul_u128_exact a b ha hb =
    let fit : a * b < modulus * modulus = grind arith in
    let ll = prod_bound (a % word) (b % word) (omega arith) (omega arith) in
    let lh = prod_bound (a % word) (b / word) (omega arith) (omega arith) in
    let hl = prod_bound (a / word) (b % word) (omega arith) (omega arith) in
    let hh = prod_bound (a / word) (b / word) (omega arith) (omega arith) in
    (
      rw
          (
            mod-eq_of_lt {n = a % word * (b % word)} {m = modulus} (omega arith),
            mod-eq_of_lt {n = a % word * (b / word)} {m = modulus} (omega arith),
            mod-eq_of_lt {n = a / word * (b % word)} {m = modulus} (omega arith),
            mod-eq_of_lt {n = a / word * (b / word)} {m = modulus} (omega arith),
          )
          (carries (a % word * (b % word)) (a % word * (b / word)) (a / word * (b % word))
              (a / word * (b / word)) (omega arith) (omega arith) (omega arith)
              (omega (arith, halves_lem a b))
            ∙ sym (halves_lem a b)),
      mod-lt _ (omega arith),
      mod-lt _ (omega arith),
    )
