-- ===== src/Common/Types.antt =====
-- The enums of crates/exg-common/src/types.rs, with their methods.
use exg.Prelude.{ℤ, pos, negsuc, ◌≡◌, Bool, true, false, not, arith}

pub data Side : Type 0 where
  buy sell : Side

unfoldable pub opposite : Side → Side
opposite buy = sell
opposite sell = buy

unfoldable pub sign : Side → ℤ
sign buy = pos 1
sign sell = negsuc 0

pub data OrderType : Type 0 where
  limit market stop_market stop_limit take_profit_market take_profit_limit : OrderType
  trailing_stop iceberg : OrderType

unfoldable pub is_conditional : OrderType → Bool
is_conditional stop_market = true
is_conditional stop_limit = true
is_conditional take_profit_market = true
is_conditional take_profit_limit = true
is_conditional trailing_stop = true
is_conditional _ = false

unfoldable pub is_limit : OrderType → Bool
is_limit limit = true
is_limit stop_limit = true
is_limit take_profit_limit = true
is_limit iceberg = true
is_limit _ = false

pub data OrderStatus : Type 0 where
  fresh partially_filled filled canceled rejected expired pending_trigger : OrderStatus

unfoldable pub is_terminal : OrderStatus → Bool
is_terminal filled = true
is_terminal canceled = true
is_terminal rejected = true
is_terminal expired = true
is_terminal _ = false

unfoldable pub is_active : OrderStatus → Bool
is_active fresh = true
is_active partially_filled = true
is_active pending_trigger = true
is_active _ = false

pub data TimeInForce : Type 0 where
  gtc ioc fok gtd post_only : TimeInForce

pub data MarginMode : Type 0 where
  cross isolated : MarginMode

pub data PositionSide : Type 0 where
  long short both : PositionSide

unfoldable pub adl_side : PositionSide → ℤ
adl_side long = pos 1
adl_side short = negsuc 0
adl_side both = pos 0

pub data SymbolType : Type 0 where
  spot perpetual_linear perpetual_inverse : SymbolType

pub data SymbolStatus : Type 0 where
  trading pre_trading halted settling delisted : SymbolStatus

unfoldable pub accepts_new_orders : SymbolStatus → Bool
accepts_new_orders trading = true
accepts_new_orders _ = false

unfoldable pub accepts_reduce_only : SymbolStatus → Bool
accepts_reduce_only trading = true
accepts_reduce_only settling = true
accepts_reduce_only _ = false

-- An order is in a terminal state exactly when it is not active.
pub is_active-eq-not-is_terminal : (s : OrderStatus) → is_active s ≡ not (is_terminal s)
unfolding is_active is_terminal
is_active-eq-not-is_terminal s = ground arith
