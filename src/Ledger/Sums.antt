-- ===== src/Ledger/Sums.antt =====
-- The sum of all balances of a ledger, as a number modulo 2 ^ 128, under each kind of update.
use native.Mathlib.Decide.{ℕ_discrete}
use exg.Prelude.{ℕ, ◌+◌, ◌%◌, ◌≡◌, refl, ap, arith, List, [], ◌∷◌, ◌++◌}
use exg.Prelude.Assoc.{Assoc, sum_by, get_or, upsert, sum_by-upsert}
use exg.Decimal.{Decimal128, modulus, bits, zero_dec, add}
use exg.Decimal.Bits.{bits-add, bits-lt, bits_laws}
use exg.Common.Error.{UserId}
use exg.Ledger.State.{
  WalletType, WalletType-discrete, WalletBalance, empty_balance, total, UserAccount, new_account,
  Accounts, SystemAccounts, JournalEntry, Ledger, balance_of, update_wallet, system_amount,
  update_system,
}
use exg.Ledger.Audit.{add_wallets, add_accounts, add_system, external_step, net_external}

abbrev pub size : WalletBalance → ℕ
size w = bits w.available + bits w.frozen + bits w.margin

abbrev account_size : UserAccount → ℕ
account_size a = sum_by size a.wallets

unfoldable pub account_funds : Accounts → ℕ
account_funds m = sum_by account_size m

unfoldable pub system_funds : SystemAccounts → ℕ
system_funds m = sum_by bits m

unfoldable pub net_bits : List JournalEntry → ℕ
net_bits j = bits (net_external j zero_dec)

account_size-new : (user_id : UserId) → account_size (new_account user_id) ≡ 0
unfolding sum_by
account_size-new user_id = refl

pub account_funds-update_wallet :
    (user_id : UserId) (wallet : WalletType) (f : WalletBalance → WalletBalance) (m : Accounts)
    → account_funds (update_wallet user_id wallet f m) + size (balance_of user_id wallet m)
      ≡ account_funds m + size (f (balance_of user_id wallet m))
unfolding account_funds update_wallet balance_of
account_funds-update_wallet user_id wallet f m =
    let a = get_or ℕ_discrete user_id (new_account user_id) m in
    omega (
      arith,
      sum_by-upsert ℕ_discrete account_size user_id (new_account user_id)
          (λ b. record b { wallets = upsert WalletType-discrete wallet empty_balance f b.wallets })
          m (account_size-new user_id),
      sum_by-upsert WalletType-discrete size wallet empty_balance f a.wallets refl,
    )

pub system_funds-update_system :
    (wallet : WalletType) (f : Decimal128 → Decimal128) (m : SystemAccounts)
    → system_funds (update_system wallet f m) + bits (system_amount wallet m)
      ≡ system_funds m + bits (f (system_amount wallet m))
unfolding system_funds update_system system_amount
system_funds-update_system wallet f m =
    sum_by-upsert WalletType-discrete bits wallet zero_dec f m refl

pub net_external-append :
    (j : List JournalEntry) (e : JournalEntry) (acc : Decimal128)
    → net_external (j ++ (e ∷ [])) acc ≡ external_step e (net_external j acc)
unfolding net_external
net_external-append [] e acc = refl
net_external-append (x ∷ j) e acc = net_external-append j e (external_step x acc)

pub net_bits-append :
    (j : List JournalEntry) (e : JournalEntry)
    → net_bits (j ++ (e ∷ [])) ≡ bits (external_step e (net_external j zero_dec))
unfolding net_bits
net_bits-append j e = ap bits (net_external-append j e zero_dec)

pub net_bits_lem : (j : List JournalEntry) → bits (net_external j zero_dec) ≡ net_bits j
unfolding net_bits
net_bits_lem j = refl

bits-total : (w : WalletBalance) → bits (total w) ≡ size w % modulus
unfolding total
bits-total w = omega bits_laws

bits-add_wallets :
    (m : Assoc WalletType WalletBalance) (acc : Decimal128)
    → bits (add_wallets m acc) ≡ (bits acc + sum_by size m) % modulus
unfolding add_wallets sum_by
bits-add_wallets [] acc = omega bits_laws
bits-add_wallets ((k, w) ∷ m) acc =
    omega (bits_laws, bits-add_wallets m (add acc (total w)), bits-total w)

pub bits-add_accounts :
    (m : Accounts) (acc : Decimal128)
    → bits (add_accounts m acc) ≡ (bits acc + account_funds m) % modulus
unfolding add_accounts account_funds sum_by
bits-add_accounts [] acc = omega bits_laws
bits-add_accounts ((k, a) ∷ m) acc =
    omega
      (bits_laws, bits-add_accounts m (add_wallets a.wallets acc), bits-add_wallets a.wallets acc)

pub bits-add_system :
    (m : SystemAccounts) (acc : Decimal128)
    → bits (add_system m acc) ≡ (bits acc + system_funds m) % modulus
unfolding add_system system_funds sum_by
bits-add_system [] acc = omega bits_laws
bits-add_system ((k, b) ∷ m) acc = omega (bits_laws, bits-add_system m (add acc b))

-- The money on the books and the money that came in, compared before and after.
abbrev pub funds : Ledger → ℕ
funds l = account_funds l.accounts + system_funds l.system_accounts

abbrev pub net : Ledger → ℕ
net l = net_bits l.journal

abbrev pub Steady : Ledger → Ledger → Type 0
Steady l l' = (funds l' + net l) % modulus ≡ (funds l + net l') % modulus

pub ruleset sums = (
  bits_laws, account_funds-update_wallet, system_funds-update_system, net_bits-append, net_bits_lem,
)
