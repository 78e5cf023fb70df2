-- ===== src/Orders/Record.antt =====
-- The records of crates/exg-order-service/src/order.rs.
use exg.Prelude.{ℕ, Bool, Option, List}
use exg.Decimal.{Decimal128}
use exg.Common.Error.{OrderId, UserId, SymbolId, UnixMicros}
use exg.Common.Types.{Side, OrderType, OrderStatus, TimeInForce, MarginMode}
use exg.Engine.Messages.{TradeId}

pub record FillRecord : Type 0 where
  pub trade_id : TradeId
  pub price : Decimal128
  pub qty : Decimal128
  pub is_maker : Bool
  pub commission : Decimal128
  pub timestamp : UnixMicros

pub record Order : Type 0 where
  pub order_id : OrderId
  pub user_id : UserId
  pub symbol : SymbolId
  pub client_order_id : Option ℕ
  pub side : Side
  pub order_type : OrderType
  pub time_in_force : TimeInForce
  pub price : Option Decimal128
  pub stop_price : Option Decimal128
  pub original_qty : Decimal128
  pub executed_qty : Decimal128
  pub remaining_qty : Decimal128
  pub status : OrderStatus
  pub margin_mode : MarginMode
  pub leverage : Option Decimal128
  pub reduce_only : Bool
  pub avg_fill_price : Decimal128
  pub total_filled_quote : Decimal128
  pub commission : Decimal128
  pub created_at : UnixMicros
  pub updated_at : UnixMicros
  pub fills : List FillRecord
