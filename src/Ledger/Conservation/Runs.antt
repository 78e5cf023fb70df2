-- ===== src/Ledger/Conservation/Runs.antt =====
-- Runs of the ledger's operations and `verify_global_invariant`, crates/exg-ledger.
use Prim.Native.String.{String}
use exg.Prelude.{◌≡◌, true, refl, List, [], ◌∷◌}
use exg.Decimal.{eq_dec, add}
use exg.Common.Error.{UnixMicros}
use exg.Ledger.State.{Ledger, new_ledger, ok}
use exg.Ledger.Audit.{verify_global_invariant, add_accounts, add_system, net_external}
use exg.Ledger.Calls.{Op, Call, call, apply, run, conserving, AllConserving}
use exg.Ledger.Sums.{Steady}
use exg.Ledger.Conservation.Funds.{
  deposit-Steady, withdraw-Steady, transfer-Steady, freeze_for_order-Steady, unfreeze_order-Steady,
}
use exg.Ledger.Conservation.Positions.{
  open_position-Steady, close_position-Steady, liquidate-Steady,
}
use exg.Ledger.Conservation.Settlement.{settle_realized_pnl_capped-Steady}
use exg.Ledger.Conservation.Global.{Steady-verify}

apply-Steady :
    (op : Op) (key : String) (t : UnixMicros) (l : Ledger)
    → conserving op ≡ true
    → Steady l (apply op key t l)
unfolding call
apply-Steady (Op.deposit u a) key t l h = deposit-Steady u a key t l
apply-Steady (Op.withdraw u a) key t l h = withdraw-Steady u a key t l
apply-Steady (Op.transfer u f w a) key t l h = transfer-Steady u a key t l f w
apply-Steady (Op.freeze u w a) key t l h = freeze_for_order-Steady u a key t l w
apply-Steady (Op.unfreeze u w a) key t l h = unfreeze_order-Steady u a key t l w
apply-Steady (Op.open_position u m f) key t l h = open_position-Steady u key t l m f
apply-Steady (Op.close_position u m p f c) key t l h = close_position-Steady u key t l m p f c
apply-Steady (Op.close_position_settled u m p f) key t l h = cc
apply-Steady (Op.liquidate u m s) key t l h = liquidate-Steady u key t l m s
apply-Steady (Op.settle_funding u p) key t l h = cc
apply-Steady (Op.realize u s) key t l h = settle_realized_pnl_capped-Steady u key t l s

run-verify :
    (calls : List Call) (l : Ledger)
    → AllConserving calls
    → verify_global_invariant l ≡ ok tt
    → verify_global_invariant (run calls l) ≡ ok tt
unfolding run
run-verify [] l all h = h
run-verify (c ∷ cs) l all h =
    run-verify cs (apply c.op c.key c.timestamp l) all.1
      (Steady-verify l _ (apply-Steady c.op c.key c.timestamp l all.0) h)

empty_passes : verify_global_invariant new_ledger ≡ ok tt
unfolding verify_global_invariant add_accounts add_system net_external eq_dec add
empty_passes = refl

-- From a new ledger, any sequence of calls other than `close_position_settled` and
-- `settle_funding`, with any arguments, keys and times, and whether they succeed, fail or abort,
-- leaves a ledger that passes the global check.
pub run_keeps_global_invariant :
    (calls : List Call)
    → AllConserving calls
    → verify_global_invariant (run calls new_ledger) ≡ ok tt
run_keeps_global_invariant calls all = run-verify calls new_ledger all empty_passes
