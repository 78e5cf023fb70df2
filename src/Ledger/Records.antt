-- ===== src/Ledger/Records.antt =====
-- The idempotency keys that the calls of the ledger leave.
use Prim.Native.String.{String}
use exg.Prelude.{◌≡◌, true, false, Bool-cases, inl, inr}
use exg.Decimal.{Decimal128, is_positive, is_zero, min, abs, sub}
use exg.Decimal.Sign.{positive, negative, none, Sign-of}
use exg.Common.Error.{UserId, UnixMicros}
use exg.Ledger.State.{WalletType, WalletBalance, Ledger, Outcome, has_key}
use exg.Ledger.Calls.{is_ok}
use exg.Ledger.Funds
use exg.Ledger.Positions
use exg.Ledger.Settlement
use exg.Ledger.Retry.{has_key_self}
use exg.Ledger.Rules.Cases.{
  check-cases, once-cases, refuse-cases, with_wallet-cases, with_balance-cases,
  pay_from_system-cases,
}

-- What a successful call leaves: a recorded key.
abbrev pub Records : {A : Type 0} → String → Outcome A × Ledger → Type 0
Records key p = is_ok p.0 ≡ true → has_key key p.1.idempotency_keys ≡ true

module _ (u : UserId) (key : String) (t : UnixMicros) (l : Ledger) where
  pub deposit-Records : (a : Decimal128) → Records key (Funds.deposit u a key t l)
  unfolding Funds.deposit
  deposit-Records a =
      check-cases (Records key) _ _ _ l (λ c e. cc)
        λ c. once-cases (Records key) key _ _ l (λ seen e. seen) λ new e. has_key_self key _

  pub withdraw-Records : (a : Decimal128) → Records key (Funds.withdraw u a key t l)
  unfolding Funds.withdraw
  withdraw-Records a =
      check-cases (Records key) _ _ _ l (λ c e. cc)
        λ c.
          once-cases (Records key) key _ _ l (λ seen e. seen)
            λ new.
              with_wallet-cases (Records key) u _ _ _ (λ e. cc)
                (refuse-cases (Records key) _ key _ _ _ (λ c e. cc) λ c e. has_key_self key _)

  pub transfer-Records :
      (f w : WalletType) (a : Decimal128) → Records key (Funds.transfer u f w a key t l)
  unfolding Funds.transfer
  transfer-Records f w a =
      check-cases (Records key) _ _ _ l (λ c e. cc)
        λ c.
          once-cases (Records key) key _ _ l (λ seen e. seen)
            λ new.
              with_wallet-cases (Records key) u _ _ _ (λ e. cc)
                (refuse-cases (Records key) _ key _ _ _ (λ c e. cc) λ c e. has_key_self key _)

  pub freeze_for_order-Records :
      (w : WalletType) (a : Decimal128) → Records key (Funds.freeze_for_order u w a key t l)
  unfolding Funds.freeze_for_order
  freeze_for_order-Records w a =
      check-cases (Records key) _ _ _ l (λ c e. cc)
        λ c.
          once-cases (Records key) key _ _ l (λ seen e. seen)
            λ new.
              with_wallet-cases (Records key) u _ _ _ (λ e. cc)
                (refuse-cases (Records key) _ key _ _ _ (λ c e. cc) λ c e. has_key_self key _)

  pub unfreeze_order-Records :
      (w : WalletType) (a : Decimal128) → Records key (Funds.unfreeze_order u w a key t l)
  unfolding Funds.unfreeze_order
  unfreeze_order-Records w a =
      check-cases (Records key) _ _ _ l (λ c e. cc)
        λ c.
          once-cases (Records key) key _ _ l (λ seen e. seen)
            λ new.
              with_wallet-cases (Records key) u _ _ _ (λ e. cc)
                (refuse-cases (Records key) _ key _ _ _ (λ c e. cc) λ c e. has_key_self key _)

  pub open_position-Records :
      (m f : Decimal128) → Records key (Positions.open_position u m f key t l)
  unfolding Positions.open_position
  open_position-Records m f =
      check-cases (Records key) _ _ _ l (λ c e. cc)
        λ c.
          check-cases (Records key) _ _ _ l (λ c e. cc)
            λ c.
              once-cases (Records key) key _ _ l (λ seen e. seen)
                λ new.
                  with_wallet-cases (Records key) u _ _ _ (λ e. cc)
                    (refuse-cases (Records key) _ key _ _ _ (λ c e. cc)
                      λ c. elim (Bool-cases (is_positive f)) [
                        | inl due ↦ rw due (λ e. has_key_self key _)
                        | inr free ↦ rw free (λ e. has_key_self key _)
                      ])

  -- The common prefix of the calls that take margin.
  pub close_position-Records :
      (m p f : Decimal128) (c : UserId) → Records key (Positions.close_position u m p f c key t l)
  unfolding Positions.close_position Positions.require_counterparty Positions.settle_counterparty
      Positions.post_close
  close_position-Records m p f c =
      check-cases (Records key) _ _ _ l (λ c e. cc)
        λ c.
          check-cases (Records key) _ _ _ l (λ c e. cc)
            λ c.
              once-cases (Records key) key _ _ l (λ seen e. seen)
                λ new.
                  with_balance-cases (Records key) u _ _ _ (λ e. cc)
                    (refuse-cases (Records key) _ key _ _ _ (λ c e. cc)
                      λ c. elim (Sign-of p) [
                        | positive q n z b h ↦
                            rw (q, z)
                              (with_balance-cases (Records key) _ _ _ _ (λ e. cc)
                                (refuse-cases (Records key) _ key _ _ _ (λ c e. cc)
                                  λ c. elim (Bool-cases (is_positive f)) [
                                    | inl due ↦ rw due (λ e. has_key_self key _)
                                    | inr free ↦ rw free (λ e. has_key_self key _)
                                  ]))
                        | negative q n z b h ↦
                            rw (q, n, z)
                              (elim (Bool-cases (is_positive f)) [
                                | inl due ↦ rw due (λ e. has_key_self key _)
                                | inr free ↦ rw free (λ e. has_key_self key _)
                              ])
                        | none q n z b ↦
                            rw (q, n, z)
                              (elim (Bool-cases (is_positive f)) [
                                | inl due ↦ rw due (λ e. has_key_self key _)
                                | inr free ↦ rw free (λ e. has_key_self key _)
                              ])
                      ])

  pub close_position_settled-Records :
      (m p f : Decimal128) → Records key (Positions.close_position_settled u m p f key t l)
  unfolding Positions.close_position_settled Positions.post_close_settled
  close_position_settled-Records m p f =
      check-cases (Records key) _ _ _ l (λ c e. cc)
        λ c.
          check-cases (Records key) _ _ _ l (λ c e. cc)
            λ c.
              once-cases (Records key) key _ _ l (λ seen e. seen)
                λ new.
                  with_balance-cases (Records key) u _ _ _ (λ e. cc)
                    (refuse-cases (Records key) _ key _ _ _ (λ c e. cc)
                      λ c. elim (Bool-cases (is_zero p)) [
                        | inl z ↦ rw z (elim (Bool-cases (is_positive f)) [
                          | inl due ↦ rw due (λ e. has_key_self key _)
                          | inr free ↦ rw free (λ e. has_key_self key _)
                        ])
                        | inr z ↦ rw z (elim (Bool-cases (is_positive f)) [
                          | inl due ↦ rw due (λ e. has_key_self key _)
                          | inr free ↦ rw free (λ e. has_key_self key _)
                        ])
                      ])

  pub liquidate-Records : (m s : Decimal128) → Records key (Positions.liquidate u m s key t l)
  unfolding Positions.liquidate Positions.require_insurance Positions.settle_surplus
      Positions.post_liquidation
  liquidate-Records m s =
      check-cases (Records key) _ _ _ l (λ c e. cc)
        λ c.
          once-cases (Records key) key _ _ l (λ seen e. seen)
            λ new.
              with_balance-cases (Records key) u _ _ _ (λ e. cc)
                (refuse-cases (Records key) _ key _ _ _ (λ c e. cc)
                  λ c.
                    refuse-cases (Records key) _ key _ _ _ (λ c e. cc)
                      λ c. elim (Sign-of s) [
                        | positive q n z b h ↦ rw q (
                            pay_from_system-cases (Records key) _ _ _ _ (λ e. cc)
                              (λ e. has_key_self key _))
                        | negative q n z b h ↦
                            rw (q, n)
                              (pay_from_system-cases (Records key) _ _ _ _ (λ e. cc)
                                (λ e. has_key_self key _))
                        | none q n z b ↦ rw (q, n) (λ e. has_key_self key _)
                      ])

  pay_funding-Records :
      (p : Decimal128) (bal : WalletBalance) (l' : Ledger)
      → has_key key l'.idempotency_keys ≡ true
      → Records key (Settlement.pay_funding u p bal key t l')
  unfolding Settlement.pay_funding
  pay_funding-Records p bal l' h =
      refuse-cases (Records key) _ key _ _ l' (λ c e. cc)
        λ c. elim (Bool-cases (is_positive (sub p (min p bal.available)))) [
          | inl rest ↦ elim (Bool-cases (is_positive (min p bal.available))) [
            | inl some_paid ↦ rw (rest, some_paid) (λ e. h)
            | inr none_paid ↦ rw (rest, none_paid) (λ e. h)
          ]
          | inr no_rest ↦ elim (Bool-cases (is_positive (min p bal.available))) [
            | inl some_paid ↦ rw (no_rest, some_paid) (λ e. h)
            | inr none_paid ↦ rw (no_rest, none_paid) (λ e. h)
          ]
        ]

  debit_realized-Records :
      (p : Decimal128) (bal : WalletBalance) (l' : Ledger)
      → has_key key l'.idempotency_keys ≡ true
      → Records key (Settlement.debit_realized u p bal key t l')
  unfolding Settlement.debit_realized
  debit_realized-Records p bal l' h = elim (Bool-cases (is_positive (min (abs p) bal.available))) [
    | inl some_paid ↦ rw some_paid (λ e. h)
    | inr none_paid ↦ rw none_paid (λ e. h)
  ]

  -- The settlements record no key where there is nothing to settle.
  pub settle_funding-Records :
      (p : Decimal128) → is_zero p ≡ false → Records key (Settlement.settle_funding u p key t l)
  unfolding Settlement.settle_funding Settlement.receive_funding
  settle_funding-Records p z = rw z (
      once-cases (Records key) key _ _ l (λ seen e. seen)
        λ new.
          with_wallet-cases (Records key) u _ _ _ (λ e. cc)
            (elim (Bool-cases (is_positive p)) [
              | inl q ↦ rw q (pay_funding-Records p _ _ (has_key_self key _))
              | inr n ↦ rw n (λ e. has_key_self key _)
            ]))

  pub settle_realized-Records :
      (p : Decimal128)
      → is_zero p ≡ false
      → Records key (Settlement.settle_realized_pnl_capped u p key t l)
  unfolding Settlement.settle_realized_pnl_capped Settlement.credit_realized
  settle_realized-Records p z = rw z (
      once-cases (Records key) key _ _ l (λ seen e. seen)
        λ new.
          with_wallet-cases (Records key) u _ _ _ (λ e. cc)
            (elim (Bool-cases (is_positive p)) [
              | inl q ↦ rw q (λ e. has_key_self key _)
              | inr n ↦ rw n (debit_realized-Records p _ _ (has_key_self key _))
            ]))
