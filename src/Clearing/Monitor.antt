-- ===== src/Clearing/Monitor.antt =====
-- `RiskMonitor` of crates/exg-clearing/src/risk_monitor.rs. A hash map is an association list, and a
-- computation that may abort an `Option`.
use native.Mathlib.Decide.{ℕ_discrete}
use exg.Prelude.{Option, some, List, [], ◌∷◌, ◌++◌, map, if◌then◌else◌}
use exg.Prelude.Assoc.{Assoc, lookup, get_or, upsert}
use exg.Decimal.{Decimal128, zero_dec, le_dec}
use exg.Decimal.Panic.{◌>>=◌}
use exg.Common.Error.{UserId, SymbolId}
use exg.Common.Types.{Side, buy, sell, PositionSide, long, short, both}
use exg.Risk.Types.{Position, MarginTier}
use exg.Risk.Margin.{calc_margin_ratio}
use exg.Clearing.Book.{revalue}

pub record LiquidationRequest : Type 0 where
  pub user_id : UserId
  pub symbol : SymbolId
  pub side : Side
  pub quantity : Decimal128

pub record RiskMonitorResult : Type 0 where
  pub cancel_all_users : List (UserId × SymbolId)
  pub liquidation_orders : List LiquidationRequest

pub record RiskMonitor : Type 0 where
  pub margin_call_threshold : Decimal128
  pub liquidation_threshold : Decimal128

-- The map of a list of pairs, in which a later pair replaces an earlier one.
unfoldable pub collect :
    List (UserId × Decimal128) → Assoc UserId Decimal128 → Assoc UserId Decimal128
unfolding upsert
collect [] m = m
collect ((k, v) ∷ kvs) m = collect kvs (upsert ℕ_discrete k v (λ _. v) m)

abbrev pub Groups : Type 0
Groups = Assoc UserId (List Position)

unfoldable pub push_position : Position → Groups → Groups
unfolding upsert
push_position p groups = upsert ℕ_discrete p.user_id [] (λ ps. ps ++ (p ∷ [])) groups

-- The positions of each user, with their profit at the mark price.
unfoldable pub group_positions : Assoc SymbolId Decimal128 → List Position → Groups → Option Groups
unfolding push_position revalue lookup
group_positions prices [] groups = some groups
group_positions prices (pos ∷ positions) groups = do
  p ← revalue (lookup ℕ_discrete pos.symbol prices) pos
  group_positions prices positions (push_position p groups)

unfoldable pub closing_side : PositionSide → Side
closing_side long = sell
closing_side both = sell
closing_side short = buy

abbrev pub cancel_of : UserId → Position → UserId × SymbolId
cancel_of user_id p = (user_id, p.symbol)

abbrev pub liquidation_of : UserId → Position → LiquidationRequest
liquidation_of user_id p = record {
  user_id = user_id;
  symbol = p.symbol;
  side = closing_side p.side;
  quantity = p.size;
}

-- What a margin ratio asks of the positions of a user.
unfoldable pub decide : RiskMonitor → UserId → List Position → Decimal128 → RiskMonitorResult
decide monitor user_id ps ratio =
    if le_dec monitor.liquidation_threshold ratio
    then record {
      cancel_all_users = map (cancel_of user_id) ps;
      liquidation_orders = map (liquidation_of user_id) ps;
    }
    else if le_dec monitor.margin_call_threshold ratio
    then record { cancel_all_users = map (cancel_of user_id) ps; liquidation_orders = [] }
    else record { cancel_all_users = []; liquidation_orders = [] }

abbrev pub join : RiskMonitorResult → RiskMonitorResult → RiskMonitorResult
join r s = record {
  cancel_all_users = r.cancel_all_users ++ s.cancel_all_users;
  liquidation_orders = r.liquidation_orders ++ s.liquidation_orders;
}

unfoldable pub scan_groups :
    RiskMonitor → Assoc UserId Decimal128 → List MarginTier → Groups → Option RiskMonitorResult
unfolding get_or
scan_groups monitor balances tiers [] =
    some (record { cancel_all_users = []; liquidation_orders = [] })
scan_groups monitor balances tiers ((user_id, ps) ∷ groups) = do
  ratio ← calc_margin_ratio ps (get_or ℕ_discrete user_id zero_dec balances) tiers
  rest ← scan_groups monitor balances tiers groups
  some (join (decide monitor user_id ps ratio) rest)

unfoldable pub scan_positions :
    RiskMonitor
    → List Position
    → List (UserId × Decimal128)
    → List (SymbolId × Decimal128)
    → List MarginTier
    → Option RiskMonitorResult
unfolding group_positions
scan_positions monitor positions wallet_balances mark_prices tiers = do
  groups ← group_positions (collect mark_prices []) positions []
  scan_groups monitor (collect wallet_balances []) tiers groups
