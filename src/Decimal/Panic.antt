-- ===== src/Decimal/Panic.antt =====
-- The operators `*` and `/` of decimal.rs, which abort where the checked operation has no result.
-- A computation that may abort is an `Option`: `none` is the panic.
use mathlib.Core.Path.{subst}
use exg.Prelude.{◌≡◌, refl, Option, none, some, ℤ, pos, ◌*ℤ◌}
use exg.Decimal.{Decimal128, scale}
use exg.Decimal.Wide.{checked_mul, checked_div}

infixl 5 ◌>>=◌ ◌>>◌
abbrev pub ◌>>=◌ {ℓ κ} : {A : Type ℓ} {B : Type κ} → Option A → (A → Option B) → Option B
none >>= f = none
some a >>= f = f a

abbrev pub ◌>>◌ {ℓ} : {B : Type ℓ} → Option (Unit {0}) → Option B → Option B
m >> k = m >>= λ _. k

unfoldable pub mul : Decimal128 → Decimal128 → Option Decimal128
mul a b = checked_mul a b

unfoldable pub div : Decimal128 → Decimal128 → Option Decimal128
div a b = checked_div a b

-- `From<i64>`: the product fits in an `i128`.
unfoldable pub from_i64 : ℤ → Decimal128
from_i64 v = v *ℤ pos scale

-- What holds of the result of a computation that does not abort.
pub data Ensures {ℓ} {A : Type ℓ} (P : A → Type 0) : Option A → Type ℓ where
  aborts : Ensures P none
  returns : (a : A) → P a → Ensures P (some a)

pub Ensures-bind {ℓ κ} :
    {A : Type ℓ} {B : Type κ} (Q : A → Type 0) {P : B → Type 0} {m : Option A} {f : A → Option B}
    → Ensures Q m
    → ((a : A) → Q a → Ensures P (f a))
    → Ensures P (m >>= f)
Ensures-bind Q aborts k = aborts
Ensures-bind Q (returns a h) k = k a h

pub Ensures-then {ℓ κ} :
    {A : Type ℓ} {B : Type κ} {P : B → Type 0} (m : Option A) {f : A → Option B}
    → ((a : A) → Ensures P (f a))
    → Ensures P (m >>= f)
Ensures-then none k = aborts
Ensures-then (some a) k = k a

pub Ensures-map {ℓ} :
    {A : Type ℓ} (Q : A → Type 0) {P : A → Type 0} {m : Option A}
    → Ensures Q m
    → ((a : A) → Q a → P a)
    → Ensures P m
Ensures-map Q aborts k = aborts
Ensures-map Q (returns a h) k = returns a (k a h)

-- `none` has no result to speak of.
abbrev Holds {ℓ} : {A : Type ℓ} → (A → Type 0) → Option A → Type 0
Holds P none = Unit
Holds P (some a) = P a

Ensures-Holds {ℓ} : {A : Type ℓ} {P : A → Type 0} {m : Option A} → Ensures P m → Holds P m
Ensures-Holds aborts = tt
Ensures-Holds (returns a h) = h

pub Ensures-some {ℓ} :
    {A : Type ℓ} (P : A → Type 0) {m : Option A} {a : A} → Ensures P m → m ≡ some a → P a
Ensures-some P h e = subst (Holds P) e (Ensures-Holds h)

-- The result of a computation is its result.
pub Ensures-self : {A : Type 0} (m : Option A) → Ensures (λ a. m ≡ some a) m
Ensures-self none = aborts
Ensures-self (some a) = returns a refl

pub Ensures-also {ℓ} :
    {A : Type ℓ} {P Q : A → Type 0} {m : Option A}
    → Ensures P m
    → Ensures Q m
    → Ensures (λ a. P a × Q a) m
Ensures-also aborts k = aborts
Ensures-also (returns a h) k = returns a (h, Ensures-Holds k)
