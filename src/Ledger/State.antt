-- ===== src/Ledger/State.antt =====
-- The data of crates/exg-ledger (account.rs, journal.rs, the `Ledger` of operations.rs), the
-- monad in which its methods run, and its private helpers.
-- A method returns `Result` and leaves the ledger as it is on `Err` too; `panic` is an aborted
-- process (`expect`). A hash map is an association list.
use Prim.Native.String.{String}
use text.Mathlib.Text.{◌==◌ as str_eq}
use native.Mathlib.Decide.{ℕ_discrete}
use exg.Prelude.{ℕ, ◌+◌, ◌%◌, Bool, true, false, none, some, List, [], ◌∷◌, ◌++◌, if◌then◌else◌}
use exg.Prelude.Assoc.{Assoc, lookup, get_or, upsert}
use exg.Decimal.{Decimal128, zero_dec, add, sub, lt_dec}
use exg.Common.Error.{ExgError, account_not_found, UserId, UnixMicros}

pub data WalletType : Type 0 where
  spot futures funding insurance_fund fee_collection escrow : WalletType

unfoldable pub WalletType-discrete : Discrete WalletType
WalletType-discrete = hlevel

pub record WalletBalance : Type 0 where
  pub available : Decimal128
  pub frozen : Decimal128
  pub margin : Decimal128

-- `WalletBalance::default`
abbrev pub empty_balance : WalletBalance
empty_balance = record { available = zero_dec; frozen = zero_dec; margin = zero_dec }

unfoldable pub total : WalletBalance → Decimal128
total w = add (add w.available w.frozen) w.margin

pub record UserAccount : Type 0 where
  pub user_id : UserId
  pub wallets : Assoc WalletType WalletBalance

-- `UserAccount::new`
abbrev pub new_account : UserId → UserAccount
new_account user_id = record { user_id = user_id; wallets = [] }

abbrev pub Accounts : Type 0
Accounts = Assoc UserId UserAccount

abbrev pub SystemAccounts : Type 0
SystemAccounts = Assoc WalletType Decimal128

pub data BalanceField : Type 0 where
  available frozen margin : BalanceField

pub data JournalEntryType : Type 0 where
  deposit withdrawal trade_fee position_open position_close funding_payment : JournalEntryType
  liquidation transfer order_freeze order_unfreeze : JournalEntryType
  insurance_fund_contribution adl_settlement : JournalEntryType

pub record JournalEntry : Type 0 where
  pub id : ℕ
  pub debit_user : UserId
  pub debit_wallet : WalletType
  pub debit_field : BalanceField
  pub credit_user : UserId
  pub credit_wallet : WalletType
  pub credit_field : BalanceField
  pub amount : Decimal128
  pub entry_type : JournalEntryType
  pub idempotency_key : String
  pub timestamp : UnixMicros

pub record Ledger : Type 0 where
  pub accounts : Accounts
  pub system_accounts : SystemAccounts
  pub journal : List JournalEntry
  pub next_journal_id : ℕ
  pub idempotency_keys : List String

-- `SYSTEM_USER_ID`
abbrev pub system_user_id : UserId
system_user_id = 0

-- `Ledger::new`
abbrev pub new_ledger : Ledger
new_ledger = record {
  accounts = [];
  system_accounts = [];
  journal = [];
  next_journal_id = 1;
  idempotency_keys = [];
}

pub data Outcome (A : Type 0) : Type 0 where
  ok : A → Outcome A
  err : ExgError → Outcome A
  panic : Outcome A

abbrev pub Action : Type 0 → Type 0
Action A = Ledger → Outcome A × Ledger

abbrev pub ⊤ : Type 0
⊤ = Unit

infixl 5 ◌>>=◌ ◌>>◌
abbrev pub ◌>>=◌ : {A B : Type 0} → Action A → (A → Action B) → Action B
◌>>=◌ m f l =
    let (r, l') = m l in elim r [ ok a ↦ f a l' | err e ↦ (err e, l') | panic ↦ (panic, l') ]

abbrev pub ◌>>◌ : {A B : Type 0} → Action A → Action B → Action B
m >> k = m >>= λ _. k

abbrev pub pure : {A : Type 0} → A → Action A
pure a l = (ok a, l)

abbrev pub raise : {A : Type 0} → ExgError → Action A
raise e l = (err e, l)

-- `if c { return Err(e); }` before the rest of a method
unfoldable pub check : {A : Type 0} → Bool → ExgError → Action A → Action A
check c e rest l = if c then (err e, l) else rest l

abbrev pub gets : {A : Type 0} → (Ledger → A) → Action A
gets f l = (ok (f l), l)

-- The wallet of an account, empty where either is missing.
unfoldable pub balance_of : UserId → WalletType → Accounts → WalletBalance
unfolding get_or
balance_of user_id wallet m =
    get_or WalletType-discrete wallet empty_balance
      (get_or ℕ_discrete user_id (new_account user_id) m).wallets

-- A change through `get_or_create_account(user).wallet_mut(wallet)`. Where the source takes the
-- account by `get_mut` it has returned `AccountNotFound` before.
unfoldable pub update_wallet :
    UserId → WalletType → (WalletBalance → WalletBalance) → Accounts → Accounts
unfolding upsert
update_wallet user_id wallet f =
    upsert ℕ_discrete user_id (new_account user_id)
      λ a. record a { wallets = upsert WalletType-discrete wallet empty_balance f a.wallets }

-- A write to the fields behind `wallet_mut(wallet)`.
abbrev pub modify_wallet : UserId → WalletType → (WalletBalance → WalletBalance) → Action ⊤
modify_wallet user_id wallet f l =
    (ok tt, record l { accounts = update_wallet user_id wallet f l.accounts })

unfoldable pub has_account : UserId → Accounts → Bool
unfolding lookup
has_account user_id m = elim (lookup ℕ_discrete user_id m) [ none ↦ false | some a ↦ true ]

unfoldable pub has_key : String → List String → Bool
has_key k [] = false
has_key k (j ∷ ks) = if str_eq j k then true else has_key k ks

unfoldable pub drop_key : String → List String → List String
drop_key k [] = []
drop_key k (j ∷ ks) = if str_eq j k then drop_key k ks else j ∷ drop_key k ks

-- `if self.check_idempotency(key) { return Ok(replay); }` before the rest of a method: a new key is
-- inserted.
unfoldable pub once : {A : Type 0} → String → A → Action A → Action A
unfolding has_key
once key replay rest l =
    if has_key key l.idempotency_keys
    then (ok replay, l)
    else rest (record l { idempotency_keys = key ∷ l.idempotency_keys })

abbrev pub append_journal : JournalEntry → Action ⊤
append_journal e l = (ok tt, record l { journal = l.journal ++ (e ∷ []) })

-- `next_id`: `next_journal_id` is a `u64`.
abbrev pub next_id : Action ℕ
next_id l = (
  ok l.next_journal_id,
  record l { next_journal_id = (l.next_journal_id + 1) % 18446744073709551616 },
)

unfoldable pub system_amount : WalletType → SystemAccounts → Decimal128
unfolding get_or
system_amount wallet m = get_or WalletType-discrete wallet zero_dec m

abbrev pub system_balance : WalletType → Ledger → Decimal128
system_balance wallet l = system_amount wallet l.system_accounts

unfoldable pub update_system :
    WalletType → (Decimal128 → Decimal128) → SystemAccounts → SystemAccounts
unfolding upsert
update_system wallet f = upsert WalletType-discrete wallet zero_dec f

abbrev pub add_system_balance : WalletType → Decimal128 → Action ⊤
add_system_balance wallet amount l = (
  ok tt,
  record l { system_accounts = update_system wallet (λ b. add b amount) l.system_accounts },
)

-- `self.sub_system_balance(wallet, amount).expect(..)` before the rest of a method: both callers
-- abort on its error.
unfoldable pub pay_from_system : {A : Type 0} → WalletType → Decimal128 → Action A → Action A
pay_from_system wallet amount rest l =
    if lt_dec (system_balance wallet l) amount
    then (panic, l)
    else rest
        (record l { system_accounts = update_system wallet (λ b. sub b amount) l.system_accounts })

-- A journal entry, its debit side first: user, wallet and field of each side.
abbrev pub entry :
    UserId
    → WalletType
    → BalanceField
    → UserId
    → WalletType
    → BalanceField
    → Decimal128
    → JournalEntryType
    → String
    → UnixMicros
    → ℕ
    → JournalEntry
entry debit_user debit_wallet debit_field credit_user credit_wallet credit_field amount entry_type
      key timestamp id =
    record {
      id = id;
      debit_user = debit_user;
      debit_wallet = debit_wallet;
      debit_field = debit_field;
      credit_user = credit_user;
      credit_wallet = credit_wallet;
      credit_field = credit_field;
      amount = amount;
      entry_type = entry_type;
      idempotency_key = key;
      timestamp = timestamp;
    }

-- `let id = self.next_id(); self.append_journal(..)`
abbrev pub post : (ℕ → JournalEntry) → Action ⊤
post e = do id ← next_id; append_journal (e id)

-- `if c { self.idempotency_keys.remove(key); return Err(e); }` before the rest of a method: a
-- failure that gives the key back, so that the call can be retried.
unfoldable pub refuse : {A : Type 0} → Bool → String → ExgError → Action A → Action A
unfolding drop_key
refuse c key e rest l =
    if c then (err e, record l { idempotency_keys = drop_key key l.idempotency_keys }) else rest l

-- `let account = self.accounts.get_mut(&user_id).ok_or(AccountNotFound(user_id))?;
-- let bal = account.wallet_mut(wallet);` before the rest of a method: an empty wallet is made if
-- there was none.
unfoldable pub with_wallet :
    {A : Type 0} → UserId → WalletType → (WalletBalance → Action A) → Action A
unfolding has_account
with_wallet user_id wallet rest l =
    if has_account user_id l.accounts
    then rest (balance_of user_id wallet l.accounts)
        (record l { accounts = update_wallet user_id wallet (λ w. w) l.accounts })
    else (err (account_not_found user_id), l)

-- The same for a reading `get`: `wallets.get(&wallet).cloned().unwrap_or_default()`.
unfoldable pub with_balance :
    {A : Type 0} → UserId → WalletType → (WalletBalance → Action A) → Action A
unfolding has_account
with_balance user_id wallet rest l =
    if has_account user_id l.accounts
    then rest (balance_of user_id wallet l.accounts) l
    else (err (account_not_found user_id), l)
