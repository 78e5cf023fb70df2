-- ===== src/Ledger/Rules/Cases.antt =====
-- The cases of each guard, for a predicate of the outcome and the ledger.
use Prim.Native.String.{String}
use exg.Prelude.{◌≡◌, Bool, true, false, Bool-cases, inl, inr, ◌∷◌}
use exg.Decimal.{Decimal128, sub, lt_dec}
use exg.Common.Error.{ExgError, account_not_found, UserId}
use exg.Ledger.State.{
  WalletType, WalletBalance, Ledger, Outcome, ok, err, panic, Action, check, once, refuse,
  with_wallet, with_balance, pay_from_system, balance_of, update_system, system_balance,
  has_account, has_key, drop_key,
}
use exg.Ledger.Rules.{with_keys, touched}

module _ {A : Type 0} (Q : Outcome A × Ledger → Type 0) where
  pub check-cases :
      (c : Bool) (e : ExgError) (rest : Action A) (l : Ledger)
      → (c ≡ true → Q (err e, l))
      → (c ≡ false → Q (rest l))
      → Q (check c e rest l)
  unfolding check
  check-cases c e rest l h k = elim (Bool-cases c) [ inl t ↦ rw t (h t) | inr f ↦ rw f (k f) ]

  pub once-cases :
      (key : String) (replay : A) (rest : Action A) (l : Ledger)
      → (has_key key l.idempotency_keys ≡ true → Q (ok replay, l))
      → (has_key key l.idempotency_keys ≡ false → Q (rest (with_keys (key ∷ l.idempotency_keys) l)))
      → Q (once key replay rest l)
  unfolding once
  once-cases key replay rest l h k = elim (Bool-cases (has_key key l.idempotency_keys)) [
    | inl t ↦ rw t (h t)
    | inr f ↦ rw f (k f)
  ]

  pub refuse-cases :
      (c : Bool) (key : String) (e : ExgError) (rest : Action A) (l : Ledger)
      → (c ≡ true → Q (err e, with_keys (drop_key key l.idempotency_keys) l))
      → (c ≡ false → Q (rest l))
      → Q (refuse c key e rest l)
  unfolding refuse
  refuse-cases c key e rest l h k = elim (Bool-cases c) [ inl t ↦ rw t (h t) | inr f ↦ rw f (k f) ]

  pub with_wallet-cases :
      (user_id : UserId) (wallet : WalletType) (rest : WalletBalance → Action A) (l : Ledger)
      → Q (err (account_not_found user_id), l)
      → Q (rest (balance_of user_id wallet l.accounts) (touched user_id wallet l))
      → Q (with_wallet user_id wallet rest l)
  unfolding with_wallet
  with_wallet-cases user_id wallet rest l h k = elim (Bool-cases (has_account user_id l.accounts)) [
    | inl t ↦ rw t k
    | inr f ↦ rw f h
  ]

  pub with_balance-cases :
      (user_id : UserId) (wallet : WalletType) (rest : WalletBalance → Action A) (l : Ledger)
      → Q (err (account_not_found user_id), l)
      → Q (rest (balance_of user_id wallet l.accounts) l)
      → Q (with_balance user_id wallet rest l)
  unfolding with_balance
  with_balance-cases user_id wallet rest l h k =
      elim (Bool-cases (has_account user_id l.accounts)) [ inl t ↦ rw t k | inr f ↦ rw f h ]

  pub pay_from_system-cases :
      (wallet : WalletType) (amount : Decimal128) (rest : Action A) (l : Ledger)
      → Q (panic, l)
      → Q (
          rest (record l {
            system_accounts = update_system wallet (λ b. sub b amount) l.system_accounts;
          }))
      → Q (pay_from_system wallet amount rest l)
  unfolding pay_from_system
  pay_from_system-cases wallet amount rest l h k =
      elim (Bool-cases (lt_dec (system_balance wallet l) amount)) [
        | inl t ↦ rw t h
        | inr f ↦ rw f k
      ]
