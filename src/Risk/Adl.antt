-- ===== src/Risk/Adl.antt =====
-- The order of auto-deleveraging, crates/exg-risk-engine/src/adl.rs.
use exg.Prelude.{Option, some, List, [], ◌∷◌, if◌then◌else◌}
use exg.Decimal.{Decimal128, is_zero, lt_dec}
use exg.Decimal.Panic.{◌>>=◌, mul, div}
use exg.Common.Error.{UserId}
use exg.Risk.Types.{Position}
use exg.Risk.Margin.{calc_unrealized_pnl}

abbrev pub Score : Type 0
Score = UserId × Decimal128

unfoldable pub adl_score : Position → Decimal128 → Option Score
adl_score p mark_price = do
  unrealized_pnl ← calc_unrealized_pnl p.entry_price mark_price p.size p.side
  notional ← mul p.size mark_price
  margin_sq ← mul p.margin p.margin
  product ← mul unrealized_pnl notional
  score ← div product margin_sq
  some (p.user_id, score)

-- `filter`, `map` and `collect`
unfoldable pub adl_scores : List Position → Decimal128 → Option (List Score)
adl_scores [] mark_price = some []
adl_scores (p ∷ ps) mark_price =
    let rest = adl_scores ps mark_price in
    if is_zero p.margin
    then rest
    else adl_score p mark_price >>= λ score. rest >>= λ scores. some (score ∷ scores)

-- A stable sort, from the highest score: an entry goes before the first one that is not above it.
unfoldable pub insert_score : Score → List Score → List Score
insert_score x [] = x ∷ []
insert_score x (y ∷ ys) =
    let rest = insert_score x ys in if lt_dec x.1 y.1 then y ∷ rest else x ∷ y ∷ ys

unfoldable pub sort_scores : List Score → List Score
unfolding insert_score
sort_scores [] = []
sort_scores (x ∷ xs) = insert_score x (sort_scores xs)

unfoldable pub calc_adl_ranking : List Position → Decimal128 → Option (List Score)
calc_adl_ranking positions mark_price =
    adl_scores positions mark_price >>= λ scores. some (sort_scores scores)
