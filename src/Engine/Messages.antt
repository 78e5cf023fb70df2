-- ===== src/Engine/Messages.antt =====
-- Commands and events, crates/exg-protocol/src/command.rs and event.rs.
use Prim.Native.String.{String}
use exg.Prelude.{ℕ, Bool, Option}
use exg.Decimal.{Decimal128}
use exg.Common.Error.{OrderId, UserId, SymbolId, UnixMicros}
use exg.Common.Types.{Side, OrderType, TimeInForce, MarginMode}

-- `TradeId` of crates/exg-common/src/ids.rs
abbrev pub TradeId : Type 0
TradeId = ℕ

-- The fields of `Command::NewOrder`.
pub record NewOrder : Type 0 where
  pub order_id : OrderId
  pub user_id : UserId
  pub symbol : SymbolId
  pub side : Side
  pub order_type : OrderType
  pub time_in_force : TimeInForce
  pub price : Option Decimal128
  pub quantity : Decimal128
  pub stop_price : Option Decimal128
  pub trailing_delta : Option Decimal128
  pub visible_quantity : Option Decimal128
  pub reduce_only : Bool
  pub margin_mode : MarginMode
  pub leverage : Option Decimal128
  pub client_order_id : Option ℕ
  pub timestamp : UnixMicros

-- The fields of `Command::AmendOrder`.
pub record AmendOrder : Type 0 where
  pub order_id : OrderId
  pub user_id : UserId
  pub symbol : SymbolId
  pub new_price : Option Decimal128
  pub new_quantity : Option Decimal128
  pub timestamp : UnixMicros

pub data Command : Type 0 where
  new_order : NewOrder → Command
  cancel_order : OrderId → UserId → SymbolId → UnixMicros → Command
  amend_order : AmendOrder → Command
  cancel_all_orders : UserId → SymbolId → UnixMicros → Command
  update_mark : SymbolId → Decimal128 → Decimal128 → UnixMicros → Command
  funding : SymbolId → UnixMicros → Command
  admin_credit : UserId → Decimal128 → String → UnixMicros → Command

pub data RejectReason : Type 0 where
  insufficient_margin position_limit_exceeded price_out_of_band self_trade_prevented : RejectReason
  rate_limit_exceeded post_only_would_take fok_not_fillable symbol_suspended : RejectReason
  mark_price_stale invalid_order duplicate_order order_not_found : RejectReason

-- The fields of `Event::OrderAccepted`.
pub record Accepted : Type 0 where
  pub order_id : OrderId
  pub user_id : UserId
  pub symbol : SymbolId
  pub client_order_id : Option ℕ
  pub timestamp : UnixMicros
  pub side : Side
  pub order_type : OrderType
  pub time_in_force : TimeInForce
  pub price : Decimal128
  pub quantity : Decimal128
  pub stop_price : Option Decimal128
  pub reduce_only : Bool
  pub visible_quantity : Option Decimal128
  pub trailing_delta : Option Decimal128
  pub trailing_peak_price : Option Decimal128

-- The fields of `Event::OrderFilled`.
pub record Filled : Type 0 where
  pub order_id : OrderId
  pub trade_id : TradeId
  pub user_id : UserId
  pub symbol : SymbolId
  pub side : Side
  pub fill_price : Decimal128
  pub fill_qty : Decimal128
  pub is_maker : Bool
  pub remaining_qty : Decimal128
  pub timestamp : UnixMicros

-- The fields of `Event::TradeExecuted`.
pub record Trade : Type 0 where
  pub trade_id : TradeId
  pub symbol : SymbolId
  pub price : Decimal128
  pub qty : Decimal128
  pub buyer_order_id : OrderId
  pub seller_order_id : OrderId
  pub buyer_user_id : UserId
  pub seller_user_id : UserId
  pub buyer_fee : Decimal128
  pub seller_fee : Decimal128
  pub timestamp : UnixMicros

pub data Event : Type 0 where
  accepted : Accepted → Event
  rejected : OrderId → UserId → RejectReason → UnixMicros → Event
  canceled : OrderId → UserId → SymbolId → Decimal128 → UnixMicros → Event
  filled : Filled → Event
  traded : Trade → Event
  mark_price_update : SymbolId → Decimal128 → Decimal128 → UnixMicros → Event
  funding_rate_update : SymbolId → Decimal128 → UnixMicros → Event
  liquidation_order : UserId → SymbolId → Side → Decimal128 → UnixMicros → Event
  admin_credited : UserId → Decimal128 → String → UnixMicros → Event
  realized_pnl : UserId → SymbolId → Decimal128 → UnixMicros → Event
  funding_settled : UserId → SymbolId → ℕ → Decimal128 → UnixMicros → Event
