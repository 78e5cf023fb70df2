-- ===== src/Risk/Types.antt =====
-- The data of crates/exg-risk-engine/src/lib.rs.
use exg.Prelude.{ℕ, List}
use exg.Decimal.{Decimal128}
use exg.Common.Error.{OrderId, UserId, SymbolId}
use exg.Common.Types.{Side, OrderType, PositionSide, MarginMode}

pub record MarginTier : Type 0 where
  pub notional_floor : Decimal128
  pub notional_cap : Decimal128
  pub maintenance_margin_rate : Decimal128
  pub maintenance_amount : Decimal128

pub record SymbolConfig : Type 0 where
  pub symbol : SymbolId
  pub tick_size : Decimal128
  pub lot_size : Decimal128
  pub min_notional : Decimal128
  pub max_leverage : Decimal128
  pub maker_fee : Decimal128
  pub taker_fee : Decimal128
  pub margin_tiers : List MarginTier

pub record Position : Type 0 where
  pub user_id : UserId
  pub symbol : SymbolId
  pub side : PositionSide
  pub size : Decimal128
  pub entry_price : Decimal128
  pub leverage : Decimal128
  pub margin : Decimal128
  pub unrealized_pnl : Decimal128
  pub accumulated_funding : Decimal128
  pub margin_mode : MarginMode

pub record Account : Type 0 where
  pub user_id : UserId
  pub wallet_balance : Decimal128
  pub available_balance : Decimal128
  pub frozen_balance : Decimal128

pub record OrderInfo : Type 0 where
  pub order_id : OrderId
  pub user_id : UserId
  pub symbol : SymbolId
  pub side : Side
  pub price : Decimal128
  pub quantity : Decimal128
  pub order_type : OrderType

pub record RateLimitState : Type 0 where
  pub orders_in_window : ℕ
  pub cancels_in_window : ℕ

pub record RateLimitConfig : Type 0 where
  pub max_orders_per_second : ℕ
  pub max_cancels_per_second : ℕ
