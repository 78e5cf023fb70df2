-- ===== src/Clearing/Book.antt =====
-- `PositionManager` of crates/exg-clearing/src/position.rs. A computation that may abort is an
-- `Option`; a hash map is an association list.
use native.Mathlib.Decide.{ℕ_discrete}
use exg.Prelude.{ℕ, ◌==◌, Option, none, some, List, [], ◌∷◌, map, if◌then◌else◌}
use exg.Prelude.Assoc.{Assoc, lookup, get_or, upsert, remove}
use exg.Prelude.Lists.{length}
use exg.Decimal.{Decimal128, zero_dec, add, sub, is_zero, is_positive, lt_dec}
use exg.Decimal.Panic.{◌>>=◌, mul, div}
use exg.Common.Error.{ExgError, internal, UserId, SymbolId}
use exg.Common.Types.{PositionSide, long, short, both, MarginMode}
use exg.Risk.Types.{Position}
use exg.Risk.Margin.{calc_unrealized_pnl}

abbrev pub PositionKey : Type 0
PositionKey = UserId × SymbolId

unfoldable pub PositionKey-discrete : Discrete PositionKey
PositionKey-discrete = hlevel ℕ_discrete

abbrev pub Positions : Type 0
Positions = Assoc PositionKey Position

unfoldable pub get_position : UserId → SymbolId → Positions → Option Position
unfolding lookup
get_position user_id symbol ps = lookup PositionKey-discrete (user_id, symbol) ps

unfoldable pub get_user_positions : UserId → Positions → List Position
get_user_positions user_id [] = []
get_user_positions user_id (((uid, symbol), p) ∷ ps) =
    let rest = get_user_positions user_id ps in if uid == user_id then p ∷ rest else rest

-- A position without size.
abbrev pub blank : UserId → SymbolId → PositionSide → Decimal128 → MarginMode → Position
blank user_id symbol side leverage margin_mode = record {
  user_id = user_id;
  symbol = symbol;
  side = side;
  size = zero_dec;
  entry_price = zero_dec;
  leverage = leverage;
  margin = zero_dec;
  unrealized_pnl = zero_dec;
  accumulated_funding = zero_dec;
  margin_mode = margin_mode;
}

-- The weighted average of the entry prices, where the new size is positive.
unfoldable pub average_entry : Position → Decimal128 → Decimal128 → Option Decimal128
average_entry p qty price = do
  old_notional ← mul p.size p.entry_price
  new_notional ← mul qty price
  if is_positive (add p.size qty)
      then div (add old_notional new_notional) (add p.size qty)
      else some p.entry_price

unfoldable pub increase :
    PositionSide → Decimal128 → Decimal128 → Decimal128 → Position → Option Position
unfolding average_entry
increase side qty price leverage p = do
  entry_price ← average_entry p qty price
  cost ← mul qty price
  add_margin ← div cost leverage
  some (record p {
    entry_price = entry_price;
    size = add p.size qty;
    side = side;
    leverage = leverage;
    margin = add p.margin add_margin;
  })

unfoldable pub open_or_increase :
    UserId
    → SymbolId
    → PositionSide
    → Decimal128
    → Decimal128
    → Decimal128
    → MarginMode
    → Positions
    → Option Positions
unfolding increase get_or upsert
open_or_increase user_id symbol side qty price leverage margin_mode ps =
    increase side qty price leverage (
      get_or PositionKey-discrete (user_id, symbol) (blank user_id symbol side leverage margin_mode)
        ps)
    >>= λ p. some (upsert PositionKey-discrete (user_id, symbol) p (λ _. p) ps)

-- The result of a reduction: an error, or the profit, what is left, and the positions.
pub data Reduced : Type 0 where
  failed : ExgError → Reduced
  reduced : Decimal128 → Option Position → Positions → Reduced

unfoldable pub realized_pnl :
    PositionSide → Decimal128 → Decimal128 → Decimal128 → Option Decimal128
realized_pnl long entry_price exit_price qty = mul (sub exit_price entry_price) qty
realized_pnl both entry_price exit_price qty = mul (sub exit_price entry_price) qty
realized_pnl short entry_price exit_price qty = mul (sub entry_price exit_price) qty

-- The part of the margin that goes with a part of the position.
unfoldable pub margin_share : Position → Decimal128 → Option Decimal128
margin_share p qty = mul p.margin qty >>= λ scaled. div scaled p.size

unfoldable pub reduce_position :
    PositionKey → Decimal128 → Decimal128 → Position → Positions → Option Reduced
unfolding realized_pnl margin_share remove upsert
reduce_position key qty exit_price p ps = do
  pnl ← realized_pnl p.side p.entry_price exit_price qty
  margin_released ← margin_share p qty
  let left = record p { size = sub p.size qty; margin = sub p.margin margin_released }
  some (
      if is_zero (sub p.size qty)
      then reduced pnl none (remove PositionKey-discrete key ps)
      else reduced pnl (some left) (upsert PositionKey-discrete key left (λ _. left) ps))

unfoldable pub reduce_found :
    PositionKey → Decimal128 → Decimal128 → Option Position → Positions → Option Reduced
unfolding reduce_position
reduce_found key qty exit_price none ps = some (failed (internal "no position found"))
reduce_found key qty exit_price (some p) ps =
    if lt_dec p.size qty
    then some (failed (internal "reduce qty exceeds position size"))
    else reduce_position key qty exit_price p ps

unfoldable pub reduce_or_close :
    UserId → SymbolId → Decimal128 → Decimal128 → Positions → Option Reduced
unfolding reduce_found get_position
reduce_or_close user_id symbol qty exit_price ps =
    reduce_found (user_id, symbol) qty exit_price (get_position user_id symbol ps) ps

unfoldable pub force_close : UserId → SymbolId → Positions → Option Position × Positions
unfolding get_position remove
force_close user_id symbol ps =
    (get_position user_id symbol ps, remove PositionKey-discrete (user_id, symbol) ps)

-- The profit of a position at the mark price of its symbol, where there is one.
unfoldable pub revalue : Option Decimal128 → Position → Option Position
revalue none p = some p
revalue (some mark_price) p = calc_unrealized_pnl p.entry_price mark_price p.size p.side >>= λ pnl.
    some (record p { unrealized_pnl = pnl })

unfoldable pub update_mark_prices : Assoc SymbolId Decimal128 → Positions → Option Positions
unfolding revalue lookup
update_mark_prices mark_prices [] = some []
update_mark_prices mark_prices (((user_id, symbol), p) ∷ ps) = do
  p' ← revalue (lookup ℕ_discrete symbol mark_prices) p
  ps' ← update_mark_prices mark_prices ps
  some (((user_id, symbol), p') ∷ ps')

unfoldable pub take_positions : Positions → List Position
take_positions ps = map (λ entry. entry.1) ps

unfoldable pub restore_positions : List Position → Positions → Positions
unfolding upsert
restore_positions [] acc = acc
restore_positions (p ∷ ps) acc =
    restore_positions ps (upsert PositionKey-discrete (p.user_id, p.symbol) p (λ _. p) acc)

unfoldable pub position_count : Positions → ℕ
position_count ps = length ps

unfoldable pub calc_margin_released :
    UserId → SymbolId → Decimal128 → Positions → Option (Option Decimal128)
unfolding get_position margin_share
calc_margin_released user_id symbol qty ps = elim (get_position user_id symbol ps) [
  | none ↦ some none
  | some p ↦ margin_share p qty >>= λ share. some (some share)
]
