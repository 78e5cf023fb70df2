-- ===== src/Clearing/Survival.antt =====
-- The ledger operations that post-trade processing drops the result of do not abort,
-- crates/exg-ledger/src/operations.rs.
use Prim.Native.String.{String}
use exg.Prelude.{◌≡◌, refl, Bool-cases, inl, inr, some}
use exg.Decimal.{Decimal128, is_zero, is_positive, zero_dec, abs, min}
use exg.Common.Error.{UserId, UnixMicros}
use exg.Ledger.State.{Ledger, Outcome, WalletBalance, funding}
use exg.Ledger.Funds
use exg.Ledger.Settlement.{settle_realized_pnl_capped, credit_realized, debit_realized}
use exg.Ledger.Rules.Cases.{check-cases, once-cases, with_wallet-cases}
use exg.Clearing.PostTrade.{ignore}

abbrev pub Survives : {A : Type 0} → Outcome A × Ledger → Type 0
Survives r = ignore r ≡ some r.1

debit_realized-Survives :
    (user_id : UserId) (signed : Decimal128) (bal : WalletBalance) (key : String) (ts : UnixMicros)
    (l : Ledger)
    → Survives (debit_realized user_id signed bal key ts l)
unfolding debit_realized
debit_realized-Survives user_id signed bal key ts l =
    elim (Bool-cases (is_positive (min (abs signed) bal.available))) [
      | inl covered ↦ rw covered refl
      | inr not_covered ↦ rw not_covered refl
    ]

pub settle_realized_pnl_capped-Survives :
    (user_id : UserId) (signed : Decimal128) (key : String) (ts : UnixMicros) (l : Ledger)
    → Survives (settle_realized_pnl_capped user_id signed key ts l)
unfolding settle_realized_pnl_capped credit_realized
settle_realized_pnl_capped-Survives user_id signed key ts l = elim (Bool-cases (is_zero signed)) [
  | inl nothing ↦ rw nothing refl
  | inr something ↦ rw something (
      once-cases Survives key zero_dec _ l (λ _. refl)
        (λ _.
          with_wallet-cases Survives user_id funding _ _ refl
            (elim (Bool-cases (is_positive signed)) [
              | inl profit ↦ rw profit refl
              | inr loss ↦ rw loss (debit_realized-Survives user_id signed _ key ts _)
            ])))
]

pub deposit-Survives :
    (user_id : UserId) (amount : Decimal128) (key : String) (ts : UnixMicros) (l : Ledger)
    → Survives (Funds.deposit user_id amount key ts l)
unfolding Funds.deposit
deposit-Survives user_id amount key ts l =
    check-cases Survives _ _ _ l (λ _. refl)
      (λ _. once-cases Survives key tt _ l (λ _. refl) (λ _. refl))
