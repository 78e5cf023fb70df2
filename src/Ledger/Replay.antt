-- ===== src/Ledger/Replay.antt =====
-- Repeated calls of the ledger, crates/exg-ledger/src/operations.rs.
use Prim.Native.String.{String}
use exg.Prelude.{◌≡◌, refl, true, Bool-cases, inl, inr, ◌⊎◌}
use exg.Decimal.{Decimal128, is_zero}
use exg.Common.Error.{UserId, UnixMicros}
use exg.Ledger.State.{Ledger, Outcome, ok, err, panic, Action, has_key, once}
use exg.Ledger.Calls.{Op, call, apply, is_ok, drop_value}
use exg.Ledger.Funds
use exg.Ledger.Positions
use exg.Ledger.Settlement
use exg.Ledger.Records.{
  deposit-Records, withdraw-Records, transfer-Records, freeze_for_order-Records,
  unfreeze_order-Records, open_position-Records, close_position-Records,
  close_position_settled-Records, liquidate-Records, settle_funding-Records,
  settle_realized-Records,
}
use exg.Ledger.Rules.{check-keeps}

once_seen :
    {A : Type 0} (key : String) (replay : A) (rest : Action A) (l : Ledger)
    → has_key key l.idempotency_keys ≡ true
    → (once key replay rest l).1 ≡ l
unfolding once
once_seen key replay rest l h = rw h

module _ (u : UserId) (p : Decimal128) (key : String) (t : UnixMicros) (l : Ledger) where
  settle_funding-replay :
      has_key key l.idempotency_keys ≡ true → (Settlement.settle_funding u p key t l).1 ≡ l
  unfolding Settlement.settle_funding
  settle_funding-replay h = elim (Bool-cases (is_zero p)) [
    | inl z ↦ rw z refl
    | inr n ↦ rw n (once_seen key _ _ l h)
  ]

  settle_realized-replay :
      has_key key l.idempotency_keys ≡ true
      → (Settlement.settle_realized_pnl_capped u p key t l).1 ≡ l
  unfolding Settlement.settle_realized_pnl_capped
  settle_realized-replay h = elim (Bool-cases (is_zero p)) [
    | inl z ↦ rw z refl
    | inr n ↦ rw n (once_seen key _ _ l h)
  ]

-- A call whose key is recorded leaves the ledger as it is.
replay_lem :
    (op : Op) (key : String) (t : UnixMicros) (l : Ledger)
    → has_key key l.idempotency_keys ≡ true
    → apply op key t l ≡ l
unfolding call Funds.deposit Funds.withdraw Funds.transfer Funds.freeze_for_order
    Funds.unfreeze_order Positions.open_position Positions.close_position
    Positions.close_position_settled Positions.liquidate
replay_lem (Op.deposit u a) key t l h =
    check-keeps (λ m. m ≡ l) _ _ _ l refl λ _. once_seen key _ _ l h
replay_lem (Op.withdraw u a) key t l h =
    check-keeps (λ m. m ≡ l) _ _ _ l refl λ _. once_seen key _ _ l h
replay_lem (Op.transfer u f w a) key t l h =
    check-keeps (λ m. m ≡ l) _ _ _ l refl λ _. once_seen key _ _ l h
replay_lem (Op.freeze u w a) key t l h =
    check-keeps (λ m. m ≡ l) _ _ _ l refl λ _. once_seen key _ _ l h
replay_lem (Op.unfreeze u w a) key t l h =
    check-keeps (λ m. m ≡ l) _ _ _ l refl λ _. once_seen key _ _ l h
replay_lem (Op.open_position u m f) key t l h =
    check-keeps (λ m. m ≡ l) _ _ _ l refl
      λ _. check-keeps (λ m. m ≡ l) _ _ _ l refl λ _. once_seen key _ _ l h
replay_lem (Op.close_position u m p f c) key t l h =
    check-keeps (λ m. m ≡ l) _ _ _ l refl
      λ _. check-keeps (λ m. m ≡ l) _ _ _ l refl λ _. once_seen key _ _ l h
replay_lem (Op.close_position_settled u m p f) key t l h =
    check-keeps (λ m. m ≡ l) _ _ _ l refl
      λ _. check-keeps (λ m. m ≡ l) _ _ _ l refl λ _. once_seen key _ _ l h
replay_lem (Op.liquidate u m s) key t l h =
    check-keeps (λ m. m ≡ l) _ _ _ l refl λ _. once_seen key _ _ l h
replay_lem (Op.settle_funding u p) key t l h = settle_funding-replay u p key t l h
replay_lem (Op.realize u s) key t l h = settle_realized-replay u s key t l h

settle_funding-zero :
    (u : UserId) (p : Decimal128) (key : String)
    → is_zero p ≡ true
    → (t : UnixMicros) (l : Ledger) → (Settlement.settle_funding u p key t l).1 ≡ l
unfolding Settlement.settle_funding
settle_funding-zero u p key z t l = rw z refl

settle_realized-zero :
    (u : UserId) (p : Decimal128) (key : String)
    → is_zero p ≡ true
    → (t : UnixMicros) (l : Ledger) → (Settlement.settle_realized_pnl_capped u p key t l).1 ≡ l
unfolding Settlement.settle_realized_pnl_capped
settle_realized-zero u p key z t l = rw z refl

is_ok-drop_value :
    {A : Type 0} (p : Outcome A × Ledger) → is_ok (drop_value p).0 ≡ true → is_ok p.0 ≡ true
is_ok-drop_value (ok a, l) e = refl
is_ok-drop_value (err x, l) e = e
is_ok-drop_value (panic, l) e = e

-- What a successful call leaves: either its key is recorded, or it is a settlement of zero.
records_or_zero :
    (op : Op) (key : String) (t : UnixMicros) (l : Ledger)
    → is_ok (call op key t l).0 ≡ true
    → (has_key key (apply op key t l).idempotency_keys ≡ true)
      ⊎ ((t' : UnixMicros) (l' : Ledger) → apply op key t' l' ≡ l')
unfolding call
records_or_zero (Op.deposit u a) key t l e = inl (deposit-Records u key t l a e)
records_or_zero (Op.withdraw u a) key t l e = inl (withdraw-Records u key t l a e)
records_or_zero (Op.transfer u f w a) key t l e = inl (transfer-Records u key t l f w a e)
records_or_zero (Op.freeze u w a) key t l e = inl (freeze_for_order-Records u key t l w a e)
records_or_zero (Op.unfreeze u w a) key t l e = inl (unfreeze_order-Records u key t l w a e)
records_or_zero (Op.open_position u m f) key t l e = inl (open_position-Records u key t l m f e)
records_or_zero (Op.close_position u m p f c) key t l e =
    inl (close_position-Records u key t l m p f c e)
records_or_zero (Op.close_position_settled u m p f) key t l e =
    inl (close_position_settled-Records u key t l m p f e)
records_or_zero (Op.liquidate u m s) key t l e = inl (liquidate-Records u key t l m s e)
records_or_zero (Op.settle_funding u p) key t l e = elim (Bool-cases (is_zero p)) [
  | inl z ↦ inr (settle_funding-zero u p key z)
  | inr n ↦ inl (settle_funding-Records u key t l p n e)
]
records_or_zero (Op.realize u p) key t l e = elim (Bool-cases (is_zero p)) [
  | inl z ↦ inr (settle_realized-zero u p key z)
  | inr n ↦ inl (
      settle_realized-Records u key t l p n
        (is_ok-drop_value (Settlement.settle_realized_pnl_capped u p key t l) e))
]

-- After a call that succeeded, the same call again, at whatever time, leaves the ledger as it is.
pub call_twice :
    (op : Op) (key : String) (t t' : UnixMicros) (l : Ledger)
    → is_ok (call op key t l).0 ≡ true
    → apply op key t' (apply op key t l) ≡ apply op key t l
call_twice op key t t' l e = elim (records_or_zero op key t l e) [
  | inl recorded ↦ replay_lem op key t' (apply op key t l) recorded
  | inr nothing ↦ nothing t' (apply op key t l)
]
