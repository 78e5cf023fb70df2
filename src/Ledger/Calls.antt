-- ===== src/Ledger/Calls.antt =====
-- The calls that a client makes of a ledger, as data.
use Prim.Native.String.{String}
use exg.Prelude.{◌≡◌, Bool, true, false, List, [], ◌∷◌}
use exg.Decimal.{Decimal128}
use exg.Common.Error.{UserId, UnixMicros}
use exg.Ledger.State.{WalletType, Ledger, Outcome, ok, err, panic, ⊤}
use exg.Ledger.Funds
use exg.Ledger.Positions
use exg.Ledger.Settlement

-- A method of `Ledger` with its arguments, but for the key and the time.
pub data Op : Type 0 where
  deposit withdraw : UserId → Decimal128 → Op
  transfer : UserId → WalletType → WalletType → Decimal128 → Op
  freeze unfreeze : UserId → WalletType → Decimal128 → Op
  open_position : UserId → Decimal128 → Decimal128 → Op
  close_position : UserId → Decimal128 → Decimal128 → Decimal128 → UserId → Op
  close_position_settled : UserId → Decimal128 → Decimal128 → Decimal128 → Op
  liquidate : UserId → Decimal128 → Decimal128 → Op
  settle_funding realize : UserId → Decimal128 → Op

pub record Call : Type 0 where
  pub op : Op
  pub key : String
  pub timestamp : UnixMicros

-- an outcome without the value
abbrev pub drop_value : {A : Type 0} → Outcome A × Ledger → Outcome ⊤ × Ledger
drop_value p = (elim p.0 [ ok a ↦ ok tt | err e ↦ err e | panic ↦ panic ], p.1)

unfoldable pub call : Op → String → UnixMicros → Ledger → Outcome ⊤ × Ledger
call (Op.deposit u a) key t l = Funds.deposit u a key t l
call (Op.withdraw u a) key t l = Funds.withdraw u a key t l
call (Op.transfer u f w a) key t l = Funds.transfer u f w a key t l
call (Op.freeze u w a) key t l = Funds.freeze_for_order u w a key t l
call (Op.unfreeze u w a) key t l = Funds.unfreeze_order u w a key t l
call (Op.open_position u m f) key t l = Positions.open_position u m f key t l
call (Op.close_position u m p f c) key t l = Positions.close_position u m p f c key t l
call (Op.close_position_settled u m p f) key t l = Positions.close_position_settled u m p f key t l
call (Op.liquidate u m s) key t l = Positions.liquidate u m s key t l
call (Op.settle_funding u p) key t l = Settlement.settle_funding u p key t l
call (Op.realize u s) key t l = drop_value (Settlement.settle_realized_pnl_capped u s key t l)

-- The ledger that a call leaves, whatever it returned.
abbrev pub apply : Op → String → UnixMicros → Ledger → Ledger
apply op key t l = (call op key t l).1

unfoldable pub run : List Call → Ledger → Ledger
run [] l = l
run (c ∷ cs) l = run cs (apply c.op c.key c.timestamp l)

abbrev pub is_ok : {A : Type 0} → Outcome A → Bool
is_ok (ok _) = true
is_ok _ = false

-- The operations that keep the books balanced at any arguments and on any ledger.
abbrev pub conserving : Op → Bool
conserving (Op.close_position_settled _ _ _ _) = false
conserving (Op.settle_funding _ _) = false
conserving _ = true

abbrev pub AllConserving : List Call → Type 0
AllConserving [] = Unit
AllConserving (c ∷ cs) = (conserving c.op ≡ true) × AllConserving cs
