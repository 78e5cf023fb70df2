-- ===== src/Risk/Tests.antt =====
-- The theorems on crates/exg-risk-engine at a few positions and rates.
use exg.Prelude.{◌≡◌, refl, pos, ◌*ℤ◌, some, List, [], ◌∷◌}
use exg.Decimal.{Decimal128, zero_dec, one_dec, sub, is_zero, lt_dec}
use exg.Decimal.Wide.{tdiv, checked_mul, checked_div}
use exg.Decimal.Panic.{mul, div}
use exg.Common.Types.{long, cross}
use exg.Risk.Types.{Position}
use exg.Risk.Margin.{calc_unrealized_pnl}
use exg.Risk.Adl.{Score, adl_score, adl_scores, sort_scores, calc_adl_ranking}

-- a position of two units with one unit of margin
abbrev position : Decimal128 → Position
position entry_price = record {
  user_id = 7;
  symbol = 1;
  side = long;
  size = pos 2000000000000000000;
  entry_price = entry_price;
  leverage = one_dec;
  margin = one_dec;
  unrealized_pnl = zero_dec;
  accumulated_funding = zero_dec;
  margin_mode = cross;
}

abbrev two : List Position
two = position (pos 3000000000000000000) ∷ position one_dec ∷ []

-- the second one has gained, the first has not
abbrev ranking : List Score
ranking = (7, pos 24000000000000000000) ∷ (7, zero_dec) ∷ []

-- it goes through
two_ranked : calc_adl_ranking two (pos 3000000000000000000) ≡ some ranking
unfolding calc_adl_ranking adl_scores is_zero adl_score calc_unrealized_pnl mul checked_mul ◌*ℤ◌ sub
    tdiv div checked_div sort_scores lt_dec
two_ranked = refl
