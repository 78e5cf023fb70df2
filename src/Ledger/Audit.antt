-- ===== src/Ledger/Audit.antt =====
-- The checks of crates/exg-ledger/src/invariant.rs.
use exg.Prelude.{if◌then◌else◌, List, [], ◌∷◌, none, some}
use native.Mathlib.Decide.{ℕ_discrete}
use exg.Prelude.Assoc.{Assoc, lookup}
use exg.Decimal.{Decimal128, zero_dec, add, sub, is_negative, eq_dec}
use exg.Common.Error.{balance_invariant_violation, account_not_found, UserId}
use exg.Ledger.State.{
  WalletType, insurance_fund, fee_collection, escrow, WalletBalance, total, Accounts,
  SystemAccounts, JournalEntryType, JournalEntry, Ledger, Outcome, ok, err, ⊤, system_balance,
}

-- The loops add each balance to the running total.
unfoldable pub add_wallets : Assoc WalletType WalletBalance → Decimal128 → Decimal128
add_wallets [] acc = acc
add_wallets ((k, w) ∷ m) acc = add_wallets m (add acc (total w))

unfoldable pub add_accounts : Accounts → Decimal128 → Decimal128
unfolding add_wallets
add_accounts [] acc = acc
add_accounts ((k, a) ∷ m) acc = add_accounts m (add_wallets a.wallets acc)

unfoldable pub add_system : SystemAccounts → Decimal128 → Decimal128
add_system [] acc = acc
add_system ((k, b) ∷ m) acc = add_system m (add acc b)

-- One entry's part in deposits less withdrawals.
unfoldable pub external_step : JournalEntry → Decimal128 → Decimal128
external_step e acc = elim e.entry_type [
  | JournalEntryType.deposit ↦ add acc e.amount
  | JournalEntryType.withdrawal ↦ sub acc e.amount
  | _ ↦ acc
]

unfoldable pub net_external : List JournalEntry → Decimal128 → Decimal128
unfolding external_step
net_external [] acc = acc
net_external (e ∷ j) acc = net_external j (external_step e acc)

unfoldable pub verify_global_invariant : Ledger → Outcome ⊤
verify_global_invariant l =
    let total = add (add_accounts l.accounts zero_dec) (add_system l.system_accounts zero_dec) in
    if eq_dec total (net_external l.journal zero_dec)
    then ok tt
    else err (balance_invariant_violation "global invariant failed")

unfoldable pub verify_wallets : Assoc WalletType WalletBalance → Outcome ⊤
verify_wallets [] = ok tt
verify_wallets ((k, w) ∷ m) =
    if is_negative w.available
    then err (balance_invariant_violation "available is negative")
    else if is_negative w.frozen
    then err (balance_invariant_violation "frozen is negative")
    else if is_negative w.margin
    then err (balance_invariant_violation "margin is negative")
    else verify_wallets m

unfoldable pub verify_account_invariant : UserId → Ledger → Outcome ⊤
unfolding lookup verify_wallets
verify_account_invariant user_id l = elim (lookup ℕ_discrete user_id l.accounts) [
  | none ↦ err (account_not_found user_id)
  | some a ↦ verify_wallets a.wallets
]

abbrev pub both_ok : Outcome ⊤ → Outcome ⊤ → Outcome ⊤
both_ok (ok t) r = r
both_ok r _ = r

unfoldable pub verify_users : Accounts → Ledger → Outcome ⊤
unfolding verify_account_invariant
verify_users [] l = ok tt
verify_users ((k, a) ∷ m) l = both_ok (verify_account_invariant k l) (verify_users m l)

unfoldable pub verify_system : List WalletType → Ledger → Outcome ⊤
verify_system [] l = ok tt
verify_system (w ∷ ws) l =
    if is_negative (system_balance w l)
    then err (balance_invariant_violation "balance is negative")
    else verify_system ws l

abbrev pub non_negative_system_wallets : List WalletType
non_negative_system_wallets = insurance_fund ∷ fee_collection ∷ escrow ∷ []

unfoldable pub verify_all_invariants : Ledger → Outcome ⊤
unfolding verify_users verify_system verify_global_invariant
verify_all_invariants l =
    both_ok (verify_users l.accounts l)
      (both_ok (verify_system non_negative_system_wallets l) (verify_global_invariant l))
