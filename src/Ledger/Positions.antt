-- ===== src/Ledger/Positions.antt =====
-- Opening, closing and liquidating positions, crates/exg-ledger/src/operations.rs.
use Prim.Native.String.{String, ◌++◌ as concat}
use exg.Prelude.{Bool, ◌&&◌, not, if◌then◌else◌}
use exg.Decimal.{Decimal128, add, sub, abs, is_positive, is_negative, is_zero, lt_dec}
use exg.Common.Error.{
  insufficient_balance, invalid_quantity, insurance_fund_depleted, UserId, UnixMicros,
}
use exg.Ledger.State.{
  futures, fee_collection, insurance_fund, escrow, available, frozen, margin, JournalEntryType,
  system_user_id, Action, ⊤, ◌>>◌, pure, check, modify_wallet, once, refuse, with_wallet,
  with_balance, entry, post, add_system_balance, pay_from_system, system_balance,
}

abbrev pub when : Bool → Action ⊤ → Action ⊤
when c m = if c then m else pure tt

unfoldable pub open_position : UserId → Decimal128 → Decimal128 → String → UnixMicros → Action ⊤
open_position user_id margin_amount fee key timestamp =
    let total_deduct = add margin_amount fee in
    check (not (is_positive margin_amount)) (invalid_quantity "margin amount must be positive") (
      check (is_negative fee) (invalid_quantity "fee cannot be negative") (
        once key tt (
          with_wallet user_id futures λ bal.
            refuse (lt_dec bal.frozen total_deduct) key
              (insufficient_balance total_deduct bal.frozen)
              do
                modify_wallet user_id futures λ w. record w {
                  frozen = sub w.frozen total_deduct;
                  margin = add w.margin margin_amount;
                }
                when (is_positive fee) (add_system_balance fee_collection fee)
                post (
                    entry user_id futures frozen user_id futures margin margin_amount
                      JournalEntryType.position_open key timestamp)
                when (is_positive fee) (
                    post (
                      entry user_id futures frozen system_user_id fee_collection available fee
                        JournalEntryType.trade_fee (concat key ":fee") timestamp)))))

-- The check that a close, settled or not, and a liquidation make of a user's margin.
abbrev pub require_margin : UserId → Decimal128 → String → Action ⊤ → Action ⊤
require_margin user_id amount key rest =
    with_balance user_id futures
      λ bal. refuse (lt_dec bal.margin amount) key (insufficient_balance amount bal.margin) rest

-- The margin goes back to `available` with the profit, less the fee.
abbrev pub release_margin : UserId → Decimal128 → Decimal128 → Decimal128 → Action ⊤
release_margin user_id margin_released realized_pnl fee = modify_wallet user_id futures λ w.
    record w {
      margin = sub w.margin margin_released;
      available = add w.available (sub (add margin_released realized_pnl) fee);
    }

-- The entry for the fee of a close.
abbrev pub post_close_fee : UserId → Decimal128 → String → UnixMicros → Action ⊤
post_close_fee user_id fee key timestamp = when (is_positive fee) (
    post (
      entry user_id futures available system_user_id fee_collection available fee
        JournalEntryType.trade_fee (concat key ":fee") timestamp))

-- The counterparty's side of a close: it pays a profit, and receives a loss.
unfoldable pub settle_counterparty : UserId → Decimal128 → Action ⊤
settle_counterparty counterparty_id realized_pnl =
    if is_positive realized_pnl
    then (modify_wallet counterparty_id futures
        λ w. record w { margin = sub w.margin realized_pnl })
    else when (is_negative realized_pnl) (
        modify_wallet counterparty_id futures
          λ w. record w { margin = add w.margin (abs realized_pnl) })

-- The counterparty of a profit must hold it as margin.
unfoldable pub require_counterparty : UserId → Decimal128 → String → Action ⊤ → Action ⊤
require_counterparty counterparty_id realized_pnl key rest =
    if is_positive realized_pnl then require_margin counterparty_id realized_pnl key rest else rest

-- The entries of a close against a counterparty.
unfoldable pub post_close :
    UserId → Decimal128 → Decimal128 → Decimal128 → UserId → String → UnixMicros → Action ⊤
post_close user_id margin_released realized_pnl fee counterparty_id key timestamp = do
  post (
      entry user_id futures margin user_id futures available margin_released
        JournalEntryType.position_close key timestamp)
  when (not (is_zero realized_pnl)) (
      post (
        if is_positive realized_pnl
        then entry counterparty_id futures margin user_id futures available (abs realized_pnl)
            JournalEntryType.position_close (concat key ":pnl") timestamp
        else entry user_id futures available counterparty_id futures margin (abs realized_pnl)
            JournalEntryType.position_close (concat key ":pnl") timestamp))
  post_close_fee user_id fee key timestamp

unfoldable pub close_position :
    UserId → Decimal128 → Decimal128 → Decimal128 → UserId → String → UnixMicros → Action ⊤
close_position user_id margin_released realized_pnl fee counterparty_id key timestamp =
    check (not (is_positive margin_released)) (invalid_quantity "margin released must be positive")
      (check (is_negative fee) (invalid_quantity "fee cannot be negative") (
        once key tt (
          require_margin user_id margin_released key (
            require_counterparty counterparty_id realized_pnl key do
              release_margin user_id margin_released realized_pnl fee
              settle_counterparty counterparty_id realized_pnl
              when (is_positive fee) (add_system_balance fee_collection fee)
              post_close user_id margin_released realized_pnl fee counterparty_id key timestamp))))

-- The entries of a close settled against the exchange.
unfoldable pub post_close_settled :
    UserId → Decimal128 → Decimal128 → Decimal128 → String → UnixMicros → Action ⊤
post_close_settled user_id margin_released realized_pnl fee key timestamp = do
  post (
      entry user_id futures margin user_id futures available margin_released
        JournalEntryType.position_close key timestamp)
  when (not (is_zero realized_pnl)) (
      post (
        if is_positive realized_pnl
        then entry system_user_id escrow available user_id futures available (abs realized_pnl)
            JournalEntryType.position_close (concat key ":pnl") timestamp
        else entry user_id futures available system_user_id escrow available (abs realized_pnl)
            JournalEntryType.position_close (concat key ":pnl") timestamp))
  post_close_fee user_id fee key timestamp

-- The test of the escrow balance has an empty body in the source.
unfoldable pub close_position_settled :
    UserId → Decimal128 → Decimal128 → Decimal128 → String → UnixMicros → Action ⊤
close_position_settled user_id margin_released realized_pnl fee key timestamp =
    check (not (is_positive margin_released)) (invalid_quantity "margin released must be positive")
      (check (is_negative fee) (invalid_quantity "fee cannot be negative") (
        once key tt (
          require_margin user_id margin_released key do
            release_margin user_id margin_released realized_pnl fee
            when (is_positive fee) (add_system_balance fee_collection fee)
            post_close_settled user_id margin_released realized_pnl fee key timestamp)))

-- The insurance fund must cover a deficit before anything moves.
unfoldable pub require_insurance : Decimal128 → String → Action ⊤ → Action ⊤
require_insurance surplus key rest l =
    refuse (is_negative surplus && lt_dec (system_balance insurance_fund l) (abs surplus)) key
      insurance_fund_depleted rest l

-- The surplus goes from escrow to the insurance fund, a deficit the other way; then the rest.
unfoldable pub settle_surplus : Decimal128 → Action ⊤ → Action ⊤
settle_surplus surplus rest =
    if is_positive surplus
    then pay_from_system escrow surplus (add_system_balance insurance_fund surplus >> rest)
    else if is_negative surplus
    then pay_from_system insurance_fund (abs surplus)
        (add_system_balance escrow (abs surplus) >> rest)
    else rest

unfoldable pub post_liquidation : UserId → Decimal128 → Decimal128 → String → UnixMicros → Action ⊤
post_liquidation user_id margin_seized surplus key timestamp = do
  post (
      entry user_id futures margin system_user_id escrow available margin_seized
        JournalEntryType.liquidation key timestamp)
  if is_positive surplus
      then post (
          entry system_user_id escrow available system_user_id insurance_fund available surplus
            JournalEntryType.insurance_fund_contribution (concat key ":surplus") timestamp)
      else when (is_negative surplus) (
          post (
            entry system_user_id insurance_fund available system_user_id escrow available
              (abs surplus) JournalEntryType.liquidation (concat key ":deficit") timestamp))

unfoldable pub liquidate : UserId → Decimal128 → Decimal128 → String → UnixMicros → Action ⊤
liquidate user_id margin_seized surplus key timestamp =
    check (not (is_positive margin_seized)) (invalid_quantity "margin seized must be positive") (
      once key tt (
        require_margin user_id margin_seized key (
          require_insurance surplus key do
            modify_wallet user_id futures λ w. record w { margin = sub w.margin margin_seized }
            add_system_balance escrow margin_seized
            settle_surplus surplus (post_liquidation user_id margin_seized surplus key timestamp))))
