-- ===== src/Ledger/Rules.antt =====
-- How a predicate of ledgers passes through the guards that the operations share. Keys and empty
-- wallets come and go: `Ignores` says that the predicate does not see them.
pub mod Cases
use Prim.Native.String.{String}
use exg.Prelude.{◌≡◌, Bool, true, false, Bool-cases, inl, inr, List, ◌∷◌}
use exg.Decimal.{Decimal128, sub, lt_dec}
use exg.Common.Error.{ExgError, UserId}
use exg.Ledger.State.{
  WalletType, WalletBalance, Ledger, Action, check, once, refuse, with_wallet, with_balance,
  pay_from_system, balance_of, update_wallet, update_system, system_balance, has_account, has_key,
  drop_key,
}

abbrev pub with_keys : List String → Ledger → Ledger
with_keys ks l = record l { idempotency_keys = ks }

-- An empty wallet where there was none.
abbrev pub touched : UserId → WalletType → Ledger → Ledger
touched user_id wallet l = record l { accounts = update_wallet user_id wallet (λ w. w) l.accounts }

pub record Ignores (P : Ledger → Type 0) : Type 0 where
  pub keys : (ks : List String) (l : Ledger) → P l → P (with_keys ks l)
  pub wallets :
      (user_id : UserId) (wallet : WalletType) (l : Ledger) → P l → P (touched user_id wallet l)

module _ (P : Ledger → Type 0) where
  pub check-keeps :
      {A : Type 0} (c : Bool) (e : ExgError) (rest : Action A) (l : Ledger)
      → P l
      → (c ≡ false → P (rest l).1)
      → P (check c e rest l).1
  unfolding check
  check-keeps c e rest l h k = elim (Bool-cases c) [ inl t ↦ rw t h | inr f ↦ rw f (k f) ]

  module _ (ig : Ignores P) where
    pub once-keeps :
        {A : Type 0} (key : String) (replay : A) (rest : Action A) (l : Ledger)
        → P l
        → ((ks : List String) → P (with_keys ks l) → P (rest (with_keys ks l)).1)
        → P (once key replay rest l).1
    unfolding once
    once-keeps key replay rest l h k = elim (Bool-cases (has_key key l.idempotency_keys)) [
      | inl t ↦ rw t h
      | inr f ↦ rw f (k _ (ig.keys (key ∷ l.idempotency_keys) l h))
    ]

    pub refuse-keeps :
        {A : Type 0} (c : Bool) (key : String) (e : ExgError) (rest : Action A) (l : Ledger)
        → P l
        → (c ≡ false → P (rest l).1)
        → P (refuse c key e rest l).1
    unfolding refuse
    refuse-keeps c key e rest l h k = elim (Bool-cases c) [
      | inl t ↦ rw t (ig.keys (drop_key key l.idempotency_keys) l h)
      | inr f ↦ rw f (k f)
    ]

    pub with_wallet-keeps :
        {A : Type 0} (user_id : UserId) (wallet : WalletType) (rest : WalletBalance → Action A)
        (l : Ledger)
        → P l
        → (P (touched user_id wallet l)
            → P (rest (balance_of user_id wallet l.accounts) (touched user_id wallet l)).1)
        → P (with_wallet user_id wallet rest l).1
    unfolding with_wallet
    with_wallet-keeps user_id wallet rest l h k =
        elim (Bool-cases (has_account user_id l.accounts)) [
          | inl t ↦ rw t (k (ig.wallets user_id wallet l h))
          | inr f ↦ rw f h
        ]

  pub with_balance-keeps :
      {A : Type 0} (user_id : UserId) (wallet : WalletType) (rest : WalletBalance → Action A)
      (l : Ledger)
      → P l
      → P (rest (balance_of user_id wallet l.accounts) l).1
      → P (with_balance user_id wallet rest l).1
  unfolding with_balance
  with_balance-keeps user_id wallet rest l h k =
      elim (Bool-cases (has_account user_id l.accounts)) [ inl t ↦ rw t k | inr f ↦ rw f h ]

  pub pay_from_system-keeps :
      {A : Type 0} (wallet : WalletType) (amount : Decimal128) (rest : Action A) (l : Ledger)
      → P l
      → (lt_dec (system_balance wallet l) amount ≡ false
          → P
              (rest (record l {
                system_accounts = update_system wallet (λ b. sub b amount) l.system_accounts;
              })).1)
      → P (pay_from_system wallet amount rest l).1
  unfolding pay_from_system
  pay_from_system-keeps wallet amount rest l h k =
      elim (Bool-cases (lt_dec (system_balance wallet l) amount)) [
        | inl t ↦ rw t h
        | inr f ↦ rw f (k f)
      ]
