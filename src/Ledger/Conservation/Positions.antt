-- ===== src/Ledger/Conservation/Positions.antt =====
-- The books under opening, closing and liquidating positions.
use Prim.Native.String.{String}
use exg.Prelude.{refl, ap, Bool-cases, inl, inr}
use exg.Decimal.{Decimal128, bits, is_positive}
use exg.Decimal.Sign.{positive, negative, none, Sign-of, fee_bits}
use exg.Common.Error.{UserId, UnixMicros}
use exg.Ledger.State.{Ledger}
use exg.Ledger.Audit.{external_step}
use exg.Ledger.Positions.{
  open_position, close_position, liquidate, settle_counterparty, require_counterparty, post_close,
  require_insurance, settle_surplus, post_liquidation,
}
use exg.Ledger.Rules.{
  check-keeps, once-keeps, refuse-keeps, with_wallet-keeps, with_balance-keeps,
  pay_from_system-keeps,
}
use exg.Ledger.Sums.{Steady, sums}
use exg.Ledger.Conservation.Funds.{Steady-Ignores}

module _ (user_id : UserId) (key : String) (timestamp : UnixMicros) (l : Ledger) where
  pub open_position-Steady :
      (margin_amount fee : Decimal128)
      → Steady l (open_position user_id margin_amount fee key timestamp l).1
  unfolding open_position external_step
  open_position-Steady margin_amount fee = check-keeps (Steady l) _ _ _ l refl λ _.
      check-keeps (Steady l) _ _ _ l refl λ nonneg.
        once-keeps (Steady l) (Steady-Ignores l) key _ _ l refl λ ks h1.
          with_wallet-keeps (Steady l) (Steady-Ignores l) user_id _ _ _ h1 λ h2.
            refuse-keeps (Steady l) (Steady-Ignores l) _ key _ _ _ h2 λ _.
              elim (Bool-cases (is_positive fee)) [
                | inl fee_due ↦ rw fee_due (omega sums)
                | inr no_fee ↦ rw no_fee (omega (sums, fee_bits fee nonneg no_fee))
              ]

  pub close_position-Steady :
      (margin_released realized_pnl fee : Decimal128) (counterparty_id : UserId)
      → Steady l
          (close_position user_id margin_released realized_pnl fee counterparty_id key timestamp
            l).1
  unfolding close_position require_counterparty settle_counterparty post_close external_step
  close_position-Steady margin_released realized_pnl fee counterparty_id =
      check-keeps (Steady l) _ _ _ l refl λ _. check-keeps (Steady l) _ _ _ l refl λ nonneg.
        once-keeps (Steady l) (Steady-Ignores l) key _ _ l refl λ ks h1.
          with_balance-keeps (Steady l) user_id _ _ _ h1 (
            refuse-keeps (Steady l) (Steady-Ignores l) _ key _ _ _ h1 λ _.
              elim (Sign-of realized_pnl) [
                | positive p n z e h ↦ rw (p) (
                    with_balance-keeps (Steady l) counterparty_id _ _ _ h1 (
                      refuse-keeps (Steady l) (Steady-Ignores l) _ key _ _ _ h1 λ _.
                        rw z (elim (Bool-cases (is_positive fee)) [
                          | inl fee_due ↦ rw fee_due (omega sums)
                          | inr no_fee ↦ rw no_fee (omega (sums, fee_bits fee nonneg no_fee))
                        ])))
                | negative p n z e h ↦
                    rw (p, n, z)
                      (elim (Bool-cases (is_positive fee)) [
                        | inl fee_due ↦ rw fee_due (omega sums)
                        | inr no_fee ↦ rw no_fee (omega (sums, fee_bits fee nonneg no_fee))
                      ])
                | none p n z e ↦
                    rw (p, n, z)
                      (elim (Bool-cases (is_positive fee)) [
                        | inl fee_due ↦ rw fee_due (omega (sums, ap bits e))
                        | inr no_fee ↦
                            rw no_fee (omega (sums, ap bits e, fee_bits fee nonneg no_fee))
                      ])
              ])

  pub liquidate-Steady :
      (margin_seized surplus : Decimal128)
      → Steady l (liquidate user_id margin_seized surplus key timestamp l).1
  unfolding liquidate require_insurance settle_surplus post_liquidation external_step
  liquidate-Steady margin_seized surplus = check-keeps (Steady l) _ _ _ l refl λ _.
      once-keeps (Steady l) (Steady-Ignores l) key _ _ l refl λ ks h1.
        with_balance-keeps (Steady l) user_id _ _ _ h1 (
          refuse-keeps (Steady l) (Steady-Ignores l) _ key _ _ _ h1 λ _.
            refuse-keeps (Steady l) (Steady-Ignores l) _ key _ _ _ h1 λ _. elim (Sign-of surplus) [
              | positive p n z e h ↦
                  rw (p) (pay_from_system-keeps (Steady l) _ _ _ _ (omega sums) λ _. omega sums)
              | negative p n z e h ↦
                  rw (p, n) (pay_from_system-keeps (Steady l) _ _ _ _ (omega sums) λ _. omega sums)
              | none p n z e ↦ rw (p, n) (omega sums)
            ])
