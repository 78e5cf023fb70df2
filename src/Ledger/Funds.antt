-- ===== src/Ledger/Funds.antt =====
-- The operations on a user's own funds of crates/exg-ledger/src/operations.rs.
use Prim.Native.String.{String}
use exg.Prelude.{not}
use exg.Decimal.{Decimal128, add, sub, is_positive, lt_dec}
use exg.Common.Error.{insufficient_balance, invalid_quantity, UserId, UnixMicros}
use exg.Ledger.State.{
  WalletType, funding, available, frozen, JournalEntryType, system_user_id, Action, ⊤, ◌>>=◌, ◌>>◌,
  check, modify_wallet, once, refuse, with_wallet, append_journal, next_id, entry, post,
}

unfoldable pub deposit : UserId → Decimal128 → String → UnixMicros → Action ⊤
deposit user_id amount key timestamp =
    check (not (is_positive amount)) (invalid_quantity "deposit amount must be positive") (
      once key tt do
        id ← next_id
        modify_wallet user_id funding λ w. record w { available = add w.available amount }
        append_journal (
            entry system_user_id funding available user_id funding available amount
              JournalEntryType.deposit key timestamp id))

unfoldable pub withdraw : UserId → Decimal128 → String → UnixMicros → Action ⊤
withdraw user_id amount key timestamp =
    check (not (is_positive amount)) (invalid_quantity "withdrawal amount must be positive") (
      once key tt (
        with_wallet user_id funding λ wallet.
          refuse (lt_dec wallet.available amount) key (insufficient_balance amount wallet.available)
            do
              modify_wallet user_id funding λ w. record w { available = sub w.available amount }
              post (
                  entry user_id funding available system_user_id funding available amount
                    JournalEntryType.withdrawal key timestamp)))

-- `from_available` is what `with_wallet` has just read, so the first write takes it from `w`.
unfoldable pub transfer :
    UserId → WalletType → WalletType → Decimal128 → String → UnixMicros → Action ⊤
transfer user_id from_wallet to_wallet amount key timestamp =
    check (not (is_positive amount)) (invalid_quantity "transfer amount must be positive") (
      once key tt (
        with_wallet user_id from_wallet λ from.
          refuse (lt_dec from.available amount) key (insufficient_balance amount from.available) do
            modify_wallet user_id from_wallet λ w. record w { available = sub w.available amount }
            modify_wallet user_id to_wallet λ w. record w { available = add w.available amount }
            post (
                entry user_id from_wallet available user_id to_wallet available amount
                  JournalEntryType.transfer key timestamp)))

unfoldable pub freeze_for_order : UserId → WalletType → Decimal128 → String → UnixMicros → Action ⊤
freeze_for_order user_id wallet amount key timestamp =
    check (not (is_positive amount)) (invalid_quantity "freeze amount must be positive") (
      once key tt (
        with_wallet user_id wallet λ bal.
          refuse (lt_dec bal.available amount) key (insufficient_balance amount bal.available) do
            modify_wallet user_id wallet
                λ w. record w { available = sub w.available amount; frozen = add w.frozen amount }
            post (
                entry user_id wallet available user_id wallet frozen amount
                  JournalEntryType.order_freeze key timestamp)))

unfoldable pub unfreeze_order : UserId → WalletType → Decimal128 → String → UnixMicros → Action ⊤
unfreeze_order user_id wallet amount key timestamp =
    check (not (is_positive amount)) (invalid_quantity "unfreeze amount must be positive") (
      once key tt (
        with_wallet user_id wallet λ bal.
          refuse (lt_dec bal.frozen amount) key (insufficient_balance amount bal.frozen) do
            modify_wallet user_id wallet
                λ w. record w { frozen = sub w.frozen amount; available = add w.available amount }
            post (
                entry user_id wallet frozen user_id wallet available amount
                  JournalEntryType.order_unfreeze key timestamp)))
