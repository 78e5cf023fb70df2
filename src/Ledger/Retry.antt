-- ===== src/Ledger/Retry.antt =====
-- Idempotency keys: what repeating a call does.
use Prim.Native.String.{String}
use text.Mathlib.TextPositions.{eq_refl}
use exg.Prelude.{◌≡◌, refl, true, false, List, ◌∷◌}
use exg.Decimal.{Decimal128, is_positive}
use exg.Common.Error.{UserId, UnixMicros, account_not_found}
use exg.Ledger.State.{Ledger, ok, err, has_key, has_account, check, once, with_wallet}
use exg.Ledger.Funds

pub has_key_self : (key : String) (ks : List String) → has_key key (key ∷ ks) ≡ true
unfolding has_key
has_key_self key ks = rw (eq_refl key)

-- The key of a withdrawal from an unknown account stays recorded: the first call fails, and the
-- same call then reports success, though nothing was ever withdrawn.
pub withdraw_unknown_account :
    (user_id : UserId) (amount : Decimal128) (key : String) (timestamp : UnixMicros) (l : Ledger)
    → is_positive amount ≡ true
    → has_key key l.idempotency_keys ≡ false
    → has_account user_id l.accounts ≡ false
    → let first = Funds.withdraw user_id amount key timestamp l in
      let second = Funds.withdraw user_id amount key timestamp first.1 in
      (first.0 ≡ err (account_not_found user_id))
      × (second.0 ≡ ok tt)
      × (second.1.accounts ≡ l.accounts)
      × (second.1.journal ≡ l.journal)
unfolding Funds.withdraw check once with_wallet
withdraw_unknown_account user_id amount key timestamp l p f n =
    rw (p, f, n, has_key_self key l.idempotency_keys) (refl, refl, refl, refl)
