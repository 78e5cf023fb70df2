-- ===== src/Risk/PreTrade.antt =====
-- The checks before a trade, crates/exg-risk-engine/src/pre_trade.rs. The result of a check is the
-- error, or `none`; a check that multiplies may abort.
use exg.Prelude.{
  Bool, true, false, ◌&&◌, ◌==◌, leb, Option, none, some, List, [], ◌∷◌, if◌then◌else◌,
}
use exg.Decimal.{Decimal128, zero_dec, add, sub, abs, lt_dec}
use exg.Decimal.Panic.{◌>>=◌, mul}
use exg.Common.Error.{
  ExgError, position_limit_exceeded, price_out_of_band, self_trade_prevented, rate_limit_exceeded,
}
use exg.Common.Types.{Side, buy, sell, opposite}
use exg.Risk.Types.{Position, OrderInfo, RateLimitState, RateLimitConfig}

-- `PartialEq` of the sides
unfoldable pub same_side : Side → Side → Bool
same_side buy buy = true
same_side sell sell = true
same_side _ _ = false

-- The notionals of the positions in the symbol of the order, summed from the first.
unfoldable pub symbol_notional : OrderInfo → List Position → Decimal128 → Option Decimal128
symbol_notional order [] acc = some acc
symbol_notional order (p ∷ ps) acc = elim (p.symbol == order.symbol) [
  | true ↦ mul p.size p.entry_price >>= λ notional. symbol_notional order ps (add acc notional)
  | false ↦ symbol_notional order ps acc
]

unfoldable pub check_position_limit :
    List Position → OrderInfo → Decimal128 → Option (Option ExgError)
check_position_limit positions order max_position_notional = do
  order_notional ← mul order.price order.quantity
  existing_notional ← symbol_notional order positions zero_dec
  some (
      if lt_dec max_position_notional (add existing_notional order_notional)
      then some (position_limit_exceeded order.symbol)
      else none)

unfoldable pub check_price_band : Decimal128 → Decimal128 → Decimal128 → Option (Option ExgError)
check_price_band order_price mark_price band_pct = do
  threshold ← mul mark_price band_pct
  some (
      if lt_dec threshold (abs (sub order_price mark_price))
      then some (price_out_of_band order_price mark_price)
      else none)

unfoldable pub is_opposing : OrderInfo → OrderInfo → Bool
unfolding same_side opposite
is_opposing order existing =
    existing.user_id == order.user_id
    && existing.symbol == order.symbol
    && same_side existing.side (opposite order.side)

unfoldable pub check_self_trade : OrderInfo → List OrderInfo → Option ExgError
check_self_trade order [] = none
check_self_trade order (existing ∷ orders) =
    let rest = check_self_trade order orders in
    if is_opposing order existing then some (self_trade_prevented order.user_id) else rest

unfoldable pub check_rate_limit : RateLimitState → RateLimitConfig → Option ExgError
check_rate_limit state config =
    if leb config.max_orders_per_second state.orders_in_window
    then some (rate_limit_exceeded 0)
    else if leb config.max_cancels_per_second state.cancels_in_window
    then some (rate_limit_exceeded 0)
    else none
