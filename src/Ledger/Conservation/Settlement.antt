-- ===== src/Ledger/Conservation/Settlement.antt =====
-- The books under the settlement of funding and of realized profit.
use Prim.Native.String.{String}
use exg.Prelude.{◌-◌, ◌%◌, ◌≡◌, refl, Bool-cases, inl, inr, ◌-ℤ◌}
use exg.Decimal.{Decimal128, modulus, bits, sub, abs, min, is_positive, Fits}
use exg.Decimal.Sign.{positive, negative, none, Sign-of, rest_bits}
use exg.Common.Error.{UserId, UnixMicros}
use exg.Ledger.State.{WalletBalance, Ledger, balance_of, futures}
use exg.Ledger.Audit.{external_step}
use exg.Ledger.Settlement.{
  pay_funding, receive_funding, settle_funding, credit_realized, debit_realized,
  settle_realized_pnl_capped,
}
use exg.Ledger.Rules.{once-keeps, refuse-keeps, with_wallet-keeps}
use exg.Ledger.Sums.{Steady, sums}
use exg.Ledger.Conservation.Funds.{Steady-Ignores}

module _ (user_id : UserId) (key : String) (timestamp : UnixMicros) (l : Ledger) where
  pay_funding-Steady :
      (payment : Decimal128) (bal : WalletBalance) (l' : Ledger)
      → Fits (payment -ℤ bal.available)
      → Steady l l'
      → Steady l (pay_funding user_id payment bal key timestamp l').1
  unfolding pay_funding external_step
  pay_funding-Steady payment bal l' fit h =
      refuse-keeps (Steady l) (Steady-Ignores l) _ key _ _ l' h λ _.
        elim (Bool-cases (is_positive (sub payment (min payment bal.available)))) [
          | inl rest ↦ elim (Bool-cases (is_positive (min payment bal.available))) [
            | inl p ↦ rw (rest, p) (omega sums)
            | inr n ↦ rw (rest, n) (omega sums)
          ]
          | inr no_rest ↦ elim (Bool-cases (is_positive (min payment bal.available))) [
            | inl p ↦ rw (no_rest, p) (omega (sums, rest_bits payment bal.available fit no_rest))
            | inr n ↦ rw (no_rest, n) (omega (sums, rest_bits payment bal.available fit no_rest))
          ]
        ]

  receive_funding-Steady :
      (payment : Decimal128) (l' : Ledger)
      → bits (abs payment) ≡ (modulus - bits payment) % modulus
      → Steady l l'
      → Steady l (receive_funding user_id payment key timestamp l').1
  unfolding receive_funding external_step
  receive_funding-Steady payment l' e h = omega sums

  -- Where the payment less the available balance is an `i128`, `settle_funding`, on every branch,
  -- keeps the sum of all balances in step with deposits less withdrawals, modulo 2 ^ 128.
  pub settle_funding-Steady :
      (payment : Decimal128)
      → Fits (payment -ℤ (balance_of user_id futures l.accounts).available)
      → Steady l (settle_funding user_id payment key timestamp l).1
  unfolding settle_funding
  settle_funding-Steady payment fit = elim (Sign-of payment) [
    | positive p n z e h ↦
        rw (z, p)
          (once-keeps (Steady l) (Steady-Ignores l) key _ _ l refl λ ks h1.
            with_wallet-keeps (Steady l) (Steady-Ignores l) user_id _ _ _ h1
              λ h2. pay_funding-Steady payment _ _ fit h2)
    | negative p n z e h ↦
        rw (z, p)
          (once-keeps (Steady l) (Steady-Ignores l) key _ _ l refl λ ks h1.
            with_wallet-keeps (Steady l) (Steady-Ignores l) user_id _ _ _ h1
              λ h2. receive_funding-Steady payment _ e h2)
    | none p n z e ↦ rw z refl
  ]

  credit_realized-Steady :
      (signed : Decimal128) (l' : Ledger)
      → Steady l l'
      → Steady l (credit_realized user_id signed key timestamp l').1
  unfolding credit_realized external_step
  credit_realized-Steady signed l' h = omega sums

  debit_realized-Steady :
      (signed : Decimal128) (bal : WalletBalance) (l' : Ledger)
      → Steady l l'
      → Steady l (debit_realized user_id signed bal key timestamp l').1
  unfolding debit_realized external_step
  debit_realized-Steady signed bal l' h =
      elim (Bool-cases (is_positive (min (abs signed) bal.available))) [
        | inl p ↦ rw p (omega sums)
        | inr n ↦ rw n (omega sums)
      ]

  pub settle_realized_pnl_capped-Steady :
      (signed : Decimal128) → Steady l (settle_realized_pnl_capped user_id signed key timestamp l).1
  unfolding settle_realized_pnl_capped
  settle_realized_pnl_capped-Steady signed = elim (Sign-of signed) [
    | positive p n z e h ↦
        rw (z, p)
          (once-keeps (Steady l) (Steady-Ignores l) key _ _ l refl λ ks h1.
            with_wallet-keeps (Steady l) (Steady-Ignores l) user_id _ _ _ h1
              λ h2. credit_realized-Steady signed _ h2)
    | negative p n z e h ↦
        rw (z, p)
          (once-keeps (Steady l) (Steady-Ignores l) key _ _ l refl λ ks h1.
            with_wallet-keeps (Steady l) (Steady-Ignores l) user_id _ _ _ h1
              λ h2. debit_realized-Steady signed _ _ h2)
    | none p n z e ↦ rw z refl
  ]
