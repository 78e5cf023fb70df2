-- ===== src/Matching/Quantities.antt =====
-- Quantities that can be traded, and the sum of fills.
use exg.Prelude.{
  ◌≡◌, arith, ℕ, ◌+◌, pos, negsuc, pos_part, ◌-ℤ◌, ◌≤ℤ◌, ◌<ℤ◌, false, List, [], ◌∷◌, ◌++◌,
}
use exg.Decimal.{Decimal128, Fits, sub, min, le_dec, is_zero}
use exg.Decimal.Exact.{sub_exact}
use exg.Matching.Book.{BookOrder}
use exg.Matching.Matcher.{Fill}

-- A quantity that can be traded.
abbrev pub Tradable : Decimal128 → Type 0
Tradable q = (pos 0 <ℤ q) × Fits q

abbrev pub Live : BookOrder → Type 0
Live o = Tradable o.remaining_qty

-- The raw units of all fills, none of which is negative where `AllTradable` holds.
unfoldable pub filled : List Fill → ℕ
filled [] = 0
filled (f ∷ fs) = pos_part f.quantity + filled fs

abbrev pub AllTradable : List Fill → Type 0
AllTradable [] = Unit
AllTradable (f ∷ fs) = Tradable f.quantity × AllTradable fs

pub filled-append : (fs gs : List Fill) → filled (fs ++ gs) ≡ filled fs + filled gs
unfolding filled
filled-append [] gs = omega arith
filled-append (f ∷ fs) gs = omega (arith, filled-append fs gs)

pub AllTradable-append :
    (fs : List Fill) (f : Fill)
    → AllTradable fs
    → Tradable f.quantity
    → AllTradable (fs ++ (f ∷ []))
AllTradable-append [] f h t = (t, tt)
AllTradable-append (g ∷ fs) f h t = (h.0, AllTradable-append fs f h.1 t)

pub min-facts :
    (a b : Decimal128)
    → Tradable a
    → Tradable b
    → Tradable (min a b) × (min a b ≤ℤ a) × (min a b ≤ℤ b)
unfolding min le_dec
min-facts (pos a) (pos b) ha hb = ground arith
min-facts (pos a) (negsuc b) ha hb = ground arith
min-facts (negsuc a) b ha hb = ground arith

-- What is left of a tradable quantity after a smaller one is no negative number.
pub sub_of_le :
    (a q : Decimal128)
    → Tradable a
    → Tradable q
    → q ≤ℤ a
    → (pos_part (sub a q) + pos_part q ≡ pos_part a) × (pos 0 ≤ℤ sub a q) × Fits (sub a q)
unfolding ◌-ℤ◌
sub_of_le (pos a) (pos q) ha hq h = rw (sub_exact (pos a) (pos q) (ground arith)) (ground arith)
sub_of_le (pos a) (negsuc q) ha hq h = ground arith
sub_of_le (negsuc a) q ha hq h = ground arith

pub not_zero : (a : Decimal128) → is_zero a ≡ false → pos 0 ≤ℤ a → pos 0 <ℤ a
unfolding is_zero
not_zero (pos a) z h = ground arith
not_zero (negsuc a) z h = ground arith
