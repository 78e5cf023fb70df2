-- ===== src/Risk/Ranking.antt =====
-- What crates/exg-risk-engine/src/adl.rs ranks, and how.
use exg.Prelude.{◌≡◌, Option, none, some, if◌then◌else◌, ◌⊎◌, List, [], ◌∷◌, ◌≤ℤ◌}
use mathlib.Core.List.{Perm}
use mathlib.Core.List.Perm
use exg.Prelude.Lists.{AllOf}
use exg.Decimal.{Decimal128, zero_dec, eq_dec}
use exg.Decimal.Panic.{mul, div}
use exg.Risk.Margin.{calc_unrealized_pnl}
use exg.Risk.Types.{Position}
use exg.Risk.Adl.{Score}

abbrev pub Below : Score → Score → Type 0
Below x y = y.1 ≤ℤ x.1

-- No entry is below a later one.
abbrev pub Descending : List Score → Type 0
Descending [] = Unit
Descending (x ∷ xs) = AllOf (Below x) xs × Descending xs

-- The score of a position: its user, and the profit times the value, over the square of the margin.
abbrev pub IsScore : Decimal128 → Position → Score → Type 0
IsScore mark_price p s =
    (pnl : Decimal128) × (value : Decimal128) × (square : Decimal128) × (product : Decimal128)
    × (calc_unrealized_pnl p.entry_price mark_price p.size p.side ≡ some pnl)
    × (mul p.size mark_price ≡ some value)
    × (mul p.margin p.margin ≡ some square)
    × (mul pnl value ≡ some product)
    × (div product square ≡ some s.1)
    × (s.0 ≡ p.user_id)

abbrev pub with_margin : List Position → List Position
with_margin [] = []
with_margin (p ∷ ps) = if eq_dec p.margin zero_dec then with_margin ps else p ∷ with_margin ps

-- The scores of positions, one for each in their order.
abbrev pub Scores : Decimal128 → List Position → List Score → Type 0
Scores mark_price [] [] = Unit
Scores mark_price (p ∷ ps) (s ∷ ss) = IsScore mark_price p s × Scores mark_price ps ss
Scores mark_price _ _ = ⊥

-- Either some score aborts, or there are all of them.
abbrev Scored : Decimal128 → List Position → Option (List Score) → Type 0
Scored mark_price ps found =
    ((found ≡ none) × ¬ ((ss : List Score) × Scores mark_price ps ss))
    ⊎ ((ss : List Score) × (found ≡ some ss) × Scores mark_price ps ss)

-- What a ranking is: either a score of a position with a margin aborts, and so does the ranking, or
-- it holds the scores of exactly these positions, none below a later one.
abbrev pub Ranked : Decimal128 → List Position → Option (List Score) → Type 0
Ranked mark_price ps found =
    ((found ≡ none) × ¬ ((ss : List Score) × Scores mark_price ps ss))
    ⊎ ((ss : List Score) × (ranking : List Score) × Scores mark_price ps ss
        × (found ≡ some ranking)
        × Perm ss ranking
        × Descending ranking)
