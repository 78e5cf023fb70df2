-- ===== src/Ledger/Conservation/Settled.antt =====
-- The books after `close_position_settled`, crates/exg-ledger/src/operations.rs.
use Prim.Native.String.{String}
use exg.Prelude.{◌+◌, ◌%◌, ◌<◌, ◌≡◌, ◌↔◌, refl, ap, arith, true, false, Bool-cases, inl, inr, pos}
use exg.Decimal.{Decimal128, modulus, bits, Fits, is_positive, is_negative, lt_dec}
use exg.Decimal.Bits.{bits-injective, bits-lt}
use exg.Decimal.Sign.{positive, negative, none, Sign-of, fee_bits}
use exg.Common.Error.{UserId, UnixMicros}
use exg.Ledger.State.{
  futures, Ledger, Outcome, ok, balance_of, has_account, has_key, check, once, refuse, with_balance,
}
use exg.Ledger.Audit.{external_step, verify_global_invariant}
use exg.Ledger.Positions.{close_position_settled, post_close_settled}
use exg.Ledger.Sums.{funds, net, sums, net_bits_lem}
use exg.Ledger.Conservation.Global.{verify_global_invariant-Balanced}

net-lt : (m : Ledger) → net m < modulus
net-lt m = rw (← net_bits_lem m.journal) (bits-lt _)

module _ (user_id : UserId) (margin_released realized_pnl fee : Decimal128) (key : String)
    (timestamp : UnixMicros) (l : Ledger) (margin_positive : is_positive margin_released ≡ true)
    (fee_nonnegative : is_negative fee ≡ false) (fresh : has_key key l.idempotency_keys ≡ false)
    (known : has_account user_id l.accounts ≡ true)
    (covered : lt_dec (balance_of user_id futures l.accounts).margin margin_released ≡ false) where
  abbrev settled : Outcome Unit × Ledger
  settled = close_position_settled user_id margin_released realized_pnl fee key timestamp l

  settled_drift :
      (settled.0 ≡ ok tt)
      × ((funds settled.1 + net l) % modulus
          ≡ (funds l + bits realized_pnl + net settled.1) % modulus)
  unfolding close_position_settled check once with_balance refuse post_close_settled external_step
  settled_drift =
      rw (margin_positive, fee_nonnegative, fresh, known, covered)
        (elim (Sign-of realized_pnl) [
          | positive p n z e h ↦
              rw (p, z)
                (elim (Bool-cases (is_positive fee)) [
                  | inl due ↦ rw due (refl, omega (sums))
                  | inr free ↦ rw free (refl, omega (sums, fee_bits fee fee_nonnegative free))
                ])
          | negative p n z e h ↦
              rw (p, z)
                (elim (Bool-cases (is_positive fee)) [
                  | inl due ↦ rw due (refl, omega (sums))
                  | inr free ↦ rw free (refl, omega (sums, fee_bits fee fee_nonnegative free))
                ])
          | none p n z e ↦ rw z (elim (Bool-cases (is_positive fee)) [
            | inl due ↦ rw due (refl, omega (sums, ap bits e))
            | inr free ↦ rw free (refl, omega (sums, ap bits e, fee_bits fee fee_nonnegative free))
          ])
        ])

  -- A settled close with a positive margin, a fee that is not negative, a fresh key, an `i128` profit
  -- and a known account that holds the margin, from a ledger that passes the global check, succeeds,
  -- and the ledger after it passes the check exactly when the profit is zero.
  pub close_position_settled-verify :
      Fits realized_pnl
      → verify_global_invariant l ≡ ok tt
      → (settled.0 ≡ ok tt) × ((verify_global_invariant settled.1 ≡ ok tt) ↔ (realized_pnl ≡ pos 0))
  close_position_settled-verify fit h =
      let before = (verify_global_invariant-Balanced l).0 h in
      (
        settled_drift.0,
        (
          (λ after. bits-injective realized_pnl (pos 0) fit (omega arith) (
              omega (
                arith,
                before,
                settled_drift.1,
                (verify_global_invariant-Balanced settled.1).0 after,
                bits-lt realized_pnl,
              ))),
          (λ e.
              (verify_global_invariant-Balanced settled.1).1
                (omega (arith, before, settled_drift.1, ap bits e, net-lt settled.1))),
        ),
      )
