-- ===== src/Ledger/Conservation/Funds.antt =====
-- The books under the operations on a user's own funds.
use Prim.Native.String.{String}
use exg.Prelude.{refl}
use exg.Decimal.{Decimal128}
use exg.Common.Error.{UserId, UnixMicros}
use exg.Ledger.State.{WalletType, Ledger}
use exg.Ledger.Audit.{external_step}
use exg.Ledger.Funds.{deposit, withdraw, transfer, freeze_for_order, unfreeze_order}
use exg.Ledger.Rules.{Ignores, check-keeps, once-keeps, refuse-keeps, with_wallet-keeps}
use exg.Ledger.Sums.{Steady, sums}

pub Steady-Ignores : (l : Ledger) → Ignores (Steady l)
Steady-Ignores l = record { keys = λ ks l' h. h; wallets = λ user_id wallet l' h. omega sums }

module _ (user_id : UserId) (amount : Decimal128) (key : String) (timestamp : UnixMicros)
    (l : Ledger) where
  pub deposit-Steady : Steady l (deposit user_id amount key timestamp l).1
  unfolding deposit external_step
  deposit-Steady =
      check-keeps (Steady l) _ _ _ l refl
        λ _. once-keeps (Steady l) (Steady-Ignores l) key _ _ l refl λ ks h1. omega sums

  pub withdraw-Steady : Steady l (withdraw user_id amount key timestamp l).1
  unfolding withdraw external_step
  withdraw-Steady = check-keeps (Steady l) _ _ _ l refl λ _.
      once-keeps (Steady l) (Steady-Ignores l) key _ _ l refl λ ks h1.
        with_wallet-keeps (Steady l) (Steady-Ignores l) user_id _ _ _ h1
          λ h2. refuse-keeps (Steady l) (Steady-Ignores l) _ key _ _ _ h2 λ _. omega sums

  pub transfer-Steady :
      (from_wallet to_wallet : WalletType)
      → Steady l (transfer user_id from_wallet to_wallet amount key timestamp l).1
  unfolding transfer external_step
  transfer-Steady from_wallet to_wallet = check-keeps (Steady l) _ _ _ l refl λ _.
      once-keeps (Steady l) (Steady-Ignores l) key _ _ l refl λ ks h1.
        with_wallet-keeps (Steady l) (Steady-Ignores l) user_id _ _ _ h1
          λ h2. refuse-keeps (Steady l) (Steady-Ignores l) _ key _ _ _ h2 λ _. omega sums

  pub freeze_for_order-Steady :
      (wallet : WalletType) → Steady l (freeze_for_order user_id wallet amount key timestamp l).1
  unfolding freeze_for_order external_step
  freeze_for_order-Steady wallet = check-keeps (Steady l) _ _ _ l refl λ _.
      once-keeps (Steady l) (Steady-Ignores l) key _ _ l refl λ ks h1.
        with_wallet-keeps (Steady l) (Steady-Ignores l) user_id _ _ _ h1
          λ h2. refuse-keeps (Steady l) (Steady-Ignores l) _ key _ _ _ h2 λ _. omega sums

  pub unfreeze_order-Steady :
      (wallet : WalletType) → Steady l (unfreeze_order user_id wallet amount key timestamp l).1
  unfolding unfreeze_order external_step
  unfreeze_order-Steady wallet = check-keeps (Steady l) _ _ _ l refl λ _.
      once-keeps (Steady l) (Steady-Ignores l) key _ _ l refl λ ks h1.
        with_wallet-keeps (Steady l) (Steady-Ignores l) user_id _ _ _ h1
          λ h2. refuse-keeps (Steady l) (Steady-Ignores l) _ key _ _ _ h2 λ _. omega sums
