-- ===== src/Ledger/Tests.antt =====
-- The theorems on the ledger of crates/exg-ledger, applied to concrete ledgers.
use native.Mathlib.Decide.{ℕ_discrete}
use exg.Prelude.{◌≡◌, ◌↔◌, ◌+◌, ◌%◌, true, false, refl, List, [], ◌∷◌, arith, pos, ◌-ℤ◌}
use exg.Decimal.{modulus, add, sub, is_positive, is_negative, lt_dec}
use exg.Common.Error.{account_not_found}
use exg.Ledger.State.{
  balance_of, Ledger, new_ledger, funding, futures, ok, err, has_key, has_account, check, once,
  refuse, with_wallet, with_balance, update_wallet, WalletType-discrete,
}
use exg.Ledger.Audit.{verify_global_invariant}
use exg.Ledger.Calls.{Op, Call, call, apply, run}
use exg.Ledger.Funds
use exg.Ledger.Positions
use exg.Ledger.Settlement
use exg.Ledger.Sums.{funds, Steady}
use exg.Ledger.Retry.{withdraw_unknown_account}
use exg.Ledger.Replay.{call_twice}
use exg.Ledger.Conservation.Runs.{run_keeps_global_invariant}
use exg.Ledger.Conservation.Global.{deposited, withdrawn, verify_global_invariant_iff}
use exg.Ledger.Conservation.Settled.{close_position_settled-verify}
use exg.Ledger.Conservation.Settlement.{settle_funding-Steady}

-- a user deposits 100, moves 60 to the futures wallet, freezes 50 of it and opens a position
abbrev trading : List Call
trading =
    record { op = Op.deposit 7 (pos 100); key = "a"; timestamp = 1 }
    ∷ record { op = Op.transfer 7 funding futures (pos 60); key = "b"; timestamp = 2 }
    ∷ record { op = Op.freeze 7 futures (pos 50); key = "c"; timestamp = 3 }
    ∷ record { op = Op.open_position 7 (pos 40) (pos 1); key = "d"; timestamp = 4 }
    ∷ []

abbrev open_book : Ledger
open_book = run trading new_ledger

run_keeps_global_invariant_example : verify_global_invariant open_book ≡ ok tt
run_keeps_global_invariant_example =
    run_keeps_global_invariant trading (refl, (refl, (refl, (refl, tt))))

verify_global_invariant_iff_example : (verify_global_invariant open_book ≡ ok tt) ↔ (
    (funds open_book + withdrawn open_book.journal) % modulus
    ≡ deposited open_book.journal % modulus)
verify_global_invariant_iff_example = verify_global_invariant_iff open_book

open_book-passes : verify_global_invariant open_book ≡ ok tt
open_book-passes = run_keeps_global_invariant trading (refl, (refl, (refl, (refl, tt))))

open_book-hypotheses :
    (has_key "e" open_book.idempotency_keys ≡ false)
    × (has_account 7 open_book.accounts ≡ true)
    × (lt_dec (balance_of 7 futures open_book.accounts).margin (pos 40) ≡ false)
    × ((balance_of 7 futures open_book.accounts).available ≡ pos 10)
unfolding has_key has_account run call Positions.open_position check is_positive is_negative once
    Funds.freeze_for_order Funds.transfer Funds.deposit with_wallet with_balance update_wallet
    ℕ_discrete refuse lt_dec balance_of WalletType-discrete add sub
open_book-hypotheses = (refl, refl, refl, refl)

close_position_settled-verify_example :
    let after = Positions.close_position_settled 7 (pos 40) (pos 5) (pos 1) "e" 5 open_book in
    (after.0 ≡ ok tt) × ((verify_global_invariant after.1 ≡ ok tt) ↔ (pos 5 ≡ pos 0))
unfolding is_positive is_negative
close_position_settled-verify_example =
    close_position_settled-verify 7 (pos 40) (pos 5) (pos 1) "e" 5 open_book refl refl
      open_book-hypotheses.0 open_book-hypotheses.1 open_book-hypotheses.2 (omega arith)
      open_book-passes

withdraw_unknown_account_example :
    let first = Funds.withdraw 3 (pos 10) "w" 1 new_ledger in
    let second = Funds.withdraw 3 (pos 10) "w" 1 first.1 in
    (first.0 ≡ err (account_not_found 3))
    × (second.0 ≡ ok tt)
    × (second.1.accounts ≡ [])
    × (second.1.journal ≡ [])
unfolding is_positive has_key has_account
withdraw_unknown_account_example =
    withdraw_unknown_account 3 (pos 10) "w" 1 new_ledger refl refl refl

call_twice_example :
    let deposited = apply (Op.deposit 3 (pos 10)) "k" 1 new_ledger in
    apply (Op.deposit 3 (pos 10)) "k" 2 deposited ≡ deposited
unfolding call Funds.deposit check once is_positive has_key
call_twice_example = call_twice (Op.deposit 3 (pos 10)) "k" 1 2 new_ledger refl

settle_funding-Steady_example :
    Steady open_book (Settlement.settle_funding 7 (pos 3) "f" 5 open_book).1
unfolding ◌-ℤ◌
settle_funding-Steady_example =
    settle_funding-Steady 7 "f" 5 open_book (pos 3) (rw open_book-hypotheses.3 (omega arith))
