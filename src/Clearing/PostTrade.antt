-- ===== src/Clearing/PostTrade.antt =====
-- `PostTradeProcessor` of crates/exg-clearing/src/post_trade.rs. A failed `expect` aborts, and a
-- computation that may abort is an `Option`. The decimal digits of a number are a parameter.
use Prim.Native.String.{String, ◌++◌ as concat}
use native.Mathlib.Decide.{ℕ_discrete}
use exg.Prelude.{
  ℕ, ◌+◌, ◌%◌, ◌&&◌, ◌||◌, Bool, true, false, Option, none, some, List, [], ◌∷◌, if◌then◌else◌,
}
use exg.Prelude.Assoc.{upsert}
use exg.Decimal.{Decimal128, zero_dec, one_dec, sub, min, is_zero, is_positive, is_negative}
use exg.Decimal.Panic.{◌>>=◌}
use exg.Common.Error.{UserId, SymbolId, UnixMicros}
use exg.Common.Types.{Side, buy, sell, PositionSide, long, short, both, cross}
use exg.Risk.Types.{Position}
use exg.Ids.Snowflake.{word}
use exg.Ledger.State.{Ledger, new_ledger, Outcome, ok, err, panic, new_account, balance_of, funding}
use exg.Ledger.Settlement.{settle_realized_pnl_capped}
use exg.Engine.Messages.{Event, realized_pnl}
use exg.Clearing.Book.{
  Positions, Reduced, failed, reduced, get_position, open_or_increase, reduce_or_close,
}

pub record PostTrade : Type 0 where
  pub positions : Positions
  pub ledger : Ledger
  pub mark_price : Decimal128
  pub funding_period_id : ℕ
  pub pnl_seq : ℕ

-- `PostTradeProcessor::new`
abbrev pub new_post_trade : PostTrade
new_post_trade = record {
  positions = [];
  ledger = new_ledger;
  mark_price = zero_dec;
  funding_period_id = 0;
  pnl_seq = 0;
}

unfoldable pub opening_side : Side → PositionSide
opening_side buy = long
opening_side sell = short

-- `PartialEq` of the position sides
unfoldable pub same_position_side : PositionSide → PositionSide → Bool
same_position_side long long = true
same_position_side short short = true
same_position_side both both = true
same_position_side _ _ = false

-- `expect` on the result of a ledger operation, and `let _ =`, which drops it.
abbrev pub expect : {A : Type 0} → Outcome A × Ledger → Option (A × Ledger)
expect (ok a, l) = some (a, l)
expect (err e, l) = none
expect (panic, l) = none

abbrev pub ignore : {A : Type 0} → Outcome A × Ledger → Option Ledger
ignore (ok a, l) = some l
ignore (err e, l) = some l
ignore (panic, l) = none

-- `get_or_create_account`
abbrev pub touch_account : UserId → Ledger → Ledger
touch_account user_id l = record l {
  accounts = upsert ℕ_discrete user_id (new_account user_id) (λ a. a) l.accounts;
}

-- The profit that a fill realized, and the positions after it.
abbrev pub Filling : Type 0
Filling = Option (Decimal128 × Positions)

unfoldable pub open_fill :
    UserId → SymbolId → PositionSide → Decimal128 → Decimal128 → Decimal128 → Positions → Filling
open_fill user_id symbol fill_side pnl qty price ps =
    open_or_increase user_id symbol fill_side qty price one_dec cross ps >>= λ ps'. some (pnl, ps')

-- What is left of a fill that closed a position opens one on the other side.
unfoldable pub flip : UserId → SymbolId → PositionSide → Decimal128 → Decimal128 → Reduced → Filling
unfolding open_fill
flip user_id symbol fill_side leftover price (failed e) = none
flip user_id symbol fill_side leftover price (reduced pnl left ps) =
    if is_positive leftover
    then open_fill user_id symbol fill_side pnl leftover price ps
    else some (pnl, ps)

unfoldable pub fill_onto :
    UserId
    → SymbolId
    → PositionSide
    → Decimal128
    → Decimal128
    → Option Position
    → Positions
    → Filling
unfolding open_fill flip same_position_side
fill_onto user_id symbol fill_side qty price none ps =
    open_fill user_id symbol fill_side zero_dec qty price ps
fill_onto user_id symbol fill_side qty price (some p) ps =
    if same_position_side p.side fill_side || is_zero p.size
    then open_fill user_id symbol fill_side zero_dec qty price ps
    else reduce_or_close user_id symbol (min qty p.size) price ps
      >>= flip user_id symbol fill_side (sub qty (min qty p.size)) price

unfoldable pub apply_fill_to_position :
    UserId → SymbolId → Side → Decimal128 → Decimal128 → Positions → Filling
unfolding fill_onto opening_side
apply_fill_to_position user_id symbol side qty price ps =
    fill_onto user_id symbol (opening_side side) qty price (get_position user_id symbol ps) ps

-- Settled: the amount moved and the ledger.
abbrev pub Settling : Type 0
Settling = Option (Decimal128 × Ledger)

-- The facts of a step, and the state after it.
abbrev pub Consumed : Type 0
Consumed = Option (List Event × PostTrade)

-- A fact, and the next number, only where an amount was moved.
abbrev pub record_pnl :
    UserId → SymbolId → UnixMicros → ℕ → PostTrade → Decimal128 × Ledger → Consumed
record_pnl user_id symbol ts next_seq s (moved, l) =
    if is_zero moved
    then some ([], record s { ledger = l })
    else some
        (realized_pnl user_id symbol moved ts ∷ [], record s { ledger = l; pnl_seq = next_seq })

module _ (digits : ℕ → String) where
  -- `pnl_{seq}_{user}_{symbol}`
  unfoldable pub pnl_key : ℕ → UserId → SymbolId → String
  pnl_key seq user_id symbol =
      concat "pnl_"
        (concat (digits seq) (concat "_" (concat (digits user_id) (concat "_" (digits symbol)))))

  unfoldable pub settle_realized_pnl :
      UserId → SymbolId → Decimal128 → ℕ → UnixMicros → Ledger → Settling
  unfolding pnl_key
  settle_realized_pnl user_id symbol pnl seq_tag ts l =
      if is_zero pnl
      then some (zero_dec, l)
      else if is_negative pnl && is_zero (balance_of user_id funding l.accounts).available
      then some (zero_dec, l)
      else expect (
          settle_realized_pnl_capped user_id pnl (pnl_key seq_tag user_id symbol) ts
            (touch_account user_id l))

  unfoldable pub consume_fill :
      UserId → SymbolId → UnixMicros → PostTrade → Decimal128 × Positions → Consumed
  consume_fill user_id symbol ts s (pnl, ps) =
      let filled_state = record s { positions = ps } in
      let next_seq = (s.pnl_seq + 1) % word in
      if is_zero pnl
      then some ([], filled_state)
      else settle_realized_pnl user_id symbol pnl next_seq ts s.ledger
        >>= record_pnl user_id symbol ts next_seq filled_state
