-- ===== src/Ledger/Settlement.antt =====
-- Funding and realized profit, crates/exg-ledger/src/operations.rs.
use Prim.Native.String.{String, ◌++◌ as concat}
use exg.Prelude.{ℕ, Bool, if◌then◌else◌, ◌&&◌}
use exg.Decimal.{Decimal128, zero_dec, add, sub, neg, abs, min, is_positive, is_zero, lt_dec}
use exg.Common.Error.{insufficient_balance, UserId, SymbolId, UnixMicros}
use exg.Ledger.State.{
  futures, funding, WalletBalance, available, margin, JournalEntryType, system_user_id, Action, ⊤,
  ◌>>=◌, ◌>>◌, pure, gets, balance_of, modify_wallet, once, refuse, with_wallet, entry, post,
  add_system_balance,
}
use exg.Ledger.Positions.{when}

-- The user pays: from `available` first, and the rest from `margin`.
unfoldable pub pay_funding : UserId → Decimal128 → WalletBalance → String → UnixMicros → Action ⊤
pay_funding user_id payment bal key timestamp =
    let from_available = min payment bal.available in
    let from_margin = sub payment from_available in
    refuse (is_positive from_margin && lt_dec bal.margin from_margin) key
      (insufficient_balance payment (add bal.available bal.margin))
      do
        modify_wallet user_id futures λ w. record w { available = sub w.available from_available }
        when (is_positive from_margin)
            (modify_wallet user_id futures λ w. record w { margin = sub w.margin from_margin })
        add_system_balance funding payment
        when (is_positive from_available) (
            post (
              entry user_id futures available system_user_id futures available from_available
                JournalEntryType.funding_payment key timestamp))
        when (is_positive from_margin) (
            post (
              entry user_id futures margin system_user_id futures available from_margin
                JournalEntryType.funding_payment (concat key ":margin") timestamp))

-- The user receives a negative payment from the pool.
unfoldable pub receive_funding : UserId → Decimal128 → String → UnixMicros → Action ⊤
receive_funding user_id payment key timestamp = do
  modify_wallet user_id futures λ w. record w { available = add w.available (abs payment) }
  add_system_balance funding payment
  post (
      entry system_user_id futures available user_id futures available (abs payment)
        JournalEntryType.funding_payment key timestamp)

unfoldable pub settle_funding : UserId → Decimal128 → String → UnixMicros → Action ⊤
settle_funding user_id payment key timestamp =
    if is_zero payment
    then pure tt
    else once key tt (
        with_wallet user_id futures λ bal.
          if is_positive payment
          then pay_funding user_id payment bal key timestamp
          else receive_funding user_id payment key timestamp)

-- The key `funding_{period}_{user}_{symbol}`, with the decimal digits of the numbers.
unfoldable pub funding_key : (ℕ → String) → ℕ → UserId → SymbolId → String
funding_key digits period user_id symbol =
    concat "funding_"
      (concat (digits period) (concat "_" (concat (digits user_id) (concat "_" (digits symbol)))))

-- Whether the payment was taken from the margin.
unfoldable pub settle_funding_checked :
    (ℕ → String) → UserId → SymbolId → ℕ → Decimal128 → UnixMicros → Action Bool
settle_funding_checked digits user_id symbol funding_period_id payment timestamp = do
  margin_before ← gets (λ l. (balance_of user_id futures l.accounts).margin)
  settle_funding user_id payment (funding_key digits funding_period_id user_id symbol) timestamp
  margin_after ← gets (λ l. (balance_of user_id futures l.accounts).margin)
  pure (lt_dec margin_after margin_before)

-- A profit is credited in full, against the Funding pool.
unfoldable pub credit_realized : UserId → Decimal128 → String → UnixMicros → Action Decimal128
credit_realized user_id signed key timestamp = do
  modify_wallet user_id funding λ w. record w { available = add w.available signed }
  add_system_balance funding (neg signed)
  post (
      entry system_user_id funding available user_id funding available signed
        JournalEntryType.funding_payment key timestamp)
  pure signed

-- A loss is debited up to what is available.
unfoldable pub debit_realized :
    UserId → Decimal128 → WalletBalance → String → UnixMicros → Action Decimal128
debit_realized user_id signed bal key timestamp =
    let cover = min (abs signed) bal.available in
    do
      modify_wallet user_id funding λ w. record w { available = sub w.available cover }
      add_system_balance funding cover
      when (is_positive cover) (
          post (
            entry user_id funding available system_user_id funding available cover
              JournalEntryType.funding_payment key timestamp))
      pure (neg cover)

unfoldable pub settle_realized_pnl_capped :
    UserId → Decimal128 → String → UnixMicros → Action Decimal128
settle_realized_pnl_capped user_id signed key timestamp =
    if is_zero signed
    then pure zero_dec
    else once key zero_dec (
        with_wallet user_id funding λ bal.
          if is_positive signed
          then credit_realized user_id signed key timestamp
          else debit_realized user_id signed bal key timestamp)
