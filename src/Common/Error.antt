-- ===== src/Common/Error.antt =====
-- `ExgError` of crates/exg-common/src/error.rs. Identifiers are numbers; an amount that the source
-- keeps as `amount.to_string()` is kept as the amount, and a formatted message as its fixed part.
use exg.Prelude.{ℕ}
use Prim.Native.String.{String}
use exg.Decimal.{Decimal128}

abbrev pub OrderId : Type 0
OrderId = ℕ

abbrev pub UserId : Type 0
UserId = ℕ

abbrev pub SymbolId : Type 0
SymbolId = ℕ

-- `UnixMicros` of crates/exg-common/src/ids.rs
abbrev pub UnixMicros : Type 0
UnixMicros = ℕ

pub data ExgError : Type 0 where
  order_not_found duplicate_order order_already_canceled order_already_filled : OrderId → ExgError
  invalid_order : String → ExgError
  post_only_would_take fok_not_fillable : ExgError
  self_trade_prevented : UserId → ExgError
  insufficient_margin : Decimal128 → Decimal128 → ExgError
  position_limit_exceeded : SymbolId → ExgError
  price_out_of_band : Decimal128 → Decimal128 → ExgError
  invalid_leverage : String → ExgError
  rate_limit_exceeded : UserId → ExgError
  insufficient_balance : Decimal128 → Decimal128 → ExgError
  account_not_found : UserId → ExgError
  duplicate_journal_entry balance_invariant_violation : String → ExgError
  symbol_not_found symbol_suspended : SymbolId → ExgError
  invalid_quantity notional_too_small : String → ExgError
  internal wal serialization : String → ExgError
  mark_price_stale : SymbolId → ExgError
  liquidation_triggered adl_triggered : UserId → SymbolId → ExgError
  insurance_fund_depleted : ExgError
