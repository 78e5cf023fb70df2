-- ===== src/Clearing/Tests.antt =====
-- Batches that open a position of user 7, credit the user, and close half of it with a profit.
use Prim.Native.String.{String}
use exg.Prelude.{ℕ, ◌==◌, ◌≡◌, refl, pos, some, List, [], ◌∷◌, if◌then◌else◌, true}
use exg.Prelude.Assoc.{or_else}
use exg.Decimal.{Decimal128, zero_dec}
use exg.Common.Types.{Side, buy, sell}
use exg.Engine.Messages.{Event, Filled, filled, mark_price_update, funding_rate_update}
use exg.Clearing.PostTrade.{PostTrade, new_post_trade}
use exg.Clearing.Log.{replay_log}
use exg.Clearing.Batches.{Batch, admin_credit, engine_events, process_batches}
use exg.Clearing.Lockstep.{Agree, process_batches-replay}
use exg.Clearing.Batches.{process_batch}
use exg.Clearing.Log.{consume, consume_event, handle_admin_credit}
use exg.Clearing.PostTrade.{
  apply_fill_to_position, consume_fill, settle_realized_pnl, pnl_key, flip, open_fill,
}
use exg.Clearing.Book.{get_position, open_or_increase, take_positions, reduce_or_close}
use exg.Decimal.Panic.{mul, div}
use exg.Decimal.Wide.{checked_mul, checked_div, tdiv}
use exg.Prelude.{◌*ℤ◌}
use exg.Decimal.{is_positive, add, is_zero, neg, sub, min, lt_dec, abs}
use exg.Clearing.Tick.{
  settle_funding_tick, settle_rows, settle_row, funding_rows, audited, signed_rate,
}
use exg.Ledger.Funds.{deposit}
use exg.Ledger.Settlement.{settle_realized_pnl_capped, debit_realized, credit_realized, funding_key}
use exg.Ledger.State.{once, check, with_wallet}
use exg.Ledger.Audit.{verify_all_invariants}
use exg.Ledger.State.{
  update_wallet, balance_of, WalletType-discrete, system_amount, update_system, total,
}
use native.Mathlib.Decide.{ℕ_discrete}
use exg.Decimal.{eq_dec}
use exg.Ledger.Audit.{add_accounts, add_system, net_external}
use exg.Clearing.Book.{PositionKey-discrete}
use exg.Decimal.{one_dec}
use exg.Common.Types.{long, cross}
use exg.Risk.Types.{Position}
use exg.Clearing.Monitor.{
  RiskMonitor, RiskMonitorResult, scan_positions, collect, scan_groups, decide, closing_side,
}
use exg.Risk.Margin.{calc_unrealized_pnl, calc_margin_ratio}
use exg.Decimal.{sum, le_dec}
use exg.Clearing.Scan.{Scanned, scan_positions-Scanned}

abbrev digits : ℕ → String
digits n = if n == 1 then "1" else "7"

abbrev fill : Side → Decimal128 → Decimal128 → Filled
fill side qty price = record {
  order_id = 3;
  trade_id = 4;
  user_id = 7;
  symbol = 1;
  side = side;
  fill_price = price;
  fill_qty = qty;
  is_maker = true;
  remaining_qty = zero_dec;
  timestamp = 10;
}

-- two units at 3, a mark of 5, a credit of 1, a funding rate of 0.1, and one unit back at 4
abbrev batches : List Batch
batches =
    engine_events 10 (
      filled (fill buy (pos 2000000000000000000) (pos 3000000000000000000))
      ∷ mark_price_update 1 (pos 5000000000000000000) (pos 5000000000000000000) 10
      ∷ [])
    ∷ admin_credit 7 (pos 1000000000000000000) "credit" 11
    ∷ engine_events 12 (
        funding_rate_update 1 (pos 100000000000000000) 12
        ∷ filled (fill sell (pos 1000000000000000000) (pos 4000000000000000000))
        ∷ [])
    ∷ []

abbrev result : List Event × PostTrade
result = or_else (process_batches digits batches new_post_trade) ([], new_post_trade)

batches_done : process_batches digits batches new_post_trade ≡ some result
unfolding process_batches process_batch consume consume_event apply_fill_to_position get_position
    open_or_increase mul checked_mul ◌*ℤ◌ is_positive add div checked_div tdiv consume_fill is_zero
    handle_admin_credit settle_funding_tick settle_rows settle_row funding_rows audited signed_rate
    take_positions settle_realized_pnl deposit settle_realized_pnl_capped once check with_wallet
    debit_realized credit_realized neg sub min lt_dec pnl_key funding_key verify_all_invariants
    reduce_or_close flip open_fill abs update_wallet ℕ_discrete balance_of WalletType-discrete
    system_amount update_system eq_dec add_accounts total add_system net_external
    PositionKey-discrete
batches_done = refl

process_batches-replay_example :
    (r' : PostTrade) × (replay_log digits result.0 new_post_trade ≡ some r') × Agree result.1 r'
process_batches-replay_example =
    process_batches-replay digits batches new_post_trade new_post_trade result.0 result.1
      ((tt, (tt, tt)), (tt, ((tt, (tt, tt)), tt))) batches_done (refl, refl, refl)

-- thresholds of 0.5 and of 1
abbrev monitor : RiskMonitor
monitor = record { margin_call_threshold = pos 500000000000000000; liquidation_threshold = one_dec }

-- a position of two units at 3, whose user has nothing left at a mark of 1
abbrev losing : Position
losing = record {
  user_id = 7;
  symbol = 1;
  side = long;
  size = pos 2000000000000000000;
  entry_price = pos 3000000000000000000;
  leverage = one_dec;
  margin = one_dec;
  unrealized_pnl = zero_dec;
  accumulated_funding = zero_dec;
  margin_mode = cross;
}

abbrev requests : RiskMonitorResult
requests = record {
  cancel_all_users = (7, 1) ∷ [];
  liquidation_orders =
      record { user_id = 7; symbol = 1; side = sell; quantity = pos 2000000000000000000 } ∷ [];
}

scan_done :
    scan_positions monitor (losing ∷ []) ((7, one_dec) ∷ []) ((1, one_dec) ∷ []) [] ≡ some requests
unfolding scan_positions collect ℕ_discrete calc_unrealized_pnl mul checked_mul ◌*ℤ◌ sub scan_groups
    calc_margin_ratio is_positive add sum tdiv decide le_dec closing_side
scan_done = refl

scan_positions-Scanned_example :
    Scanned monitor (losing ∷ []) ((7, one_dec) ∷ []) ((1, one_dec) ∷ []) [] 7 requests
scan_positions-Scanned_example =
    scan_positions-Scanned monitor (losing ∷ []) ((7, one_dec) ∷ []) ((1, one_dec) ∷ []) [] 7
      requests scan_done
