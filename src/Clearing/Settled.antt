-- ===== src/Clearing/Settled.antt =====
-- What the settlements of post-trade processing keep and record, crates/exg-clearing/src/post_trade.rs.
use Prim.Native.String.{String}
use exg.Prelude.{ℕ, ◌+◌, ◌%◌, ◌≡◌, refl, sym, Bool-cases, inl, inr, ◌&&◌, not, some, List, [], ◌∷◌}
use exg.Prelude.Lists.{AllOf, AllOf-both}
use exg.Decimal.{Decimal128, is_zero}
use exg.Decimal.Panic.{mul, Ensures, returns, Ensures-bind, Ensures-then}
use exg.Common.Error.{UserId, SymbolId, UnixMicros}
use exg.Ids.Snowflake.{word}
use exg.Risk.Types.{Position}
use exg.Ledger.State.{Ledger}
use exg.Engine.Messages.{Event}
use exg.Clearing.Book.{Positions, take_positions}
use exg.Clearing.PostTrade.{PostTrade, consume_fill, settle_realized_pnl, record_pnl}
use exg.Clearing.Tick.{
  settle_row, settle_rows, funding_fact, funding_rows, settle_funding_tick, audited, no_rows,
  signed_rate,
}
use exg.Clearing.Projection.{seq_after, last_seq, IsFact, FromEngine, last_seq-engine}

-- A step that neither fills nor moves the mark.
abbrev pub Settled : PostTrade → List Event × PostTrade → Type 0
Settled s r =
    (r.1.positions ≡ s.positions)
    × (r.1.mark_price ≡ s.mark_price)
    × (r.1.pnl_seq ≡ last_seq r.0 s.pnl_seq)
    × AllOf IsFact r.0

module _ (digits : ℕ → String) where
  record_pnl-Settled :
      (user_id : UserId) (symbol : SymbolId) (ts : UnixMicros) (s : PostTrade)
      (done : Decimal128 × Ledger)
      → Ensures (Settled s) (record_pnl user_id symbol ts ((s.pnl_seq + 1) % word) s done)
  unfolding last_seq seq_after
  record_pnl-Settled user_id symbol ts s (moved, l) = elim (Bool-cases (is_zero moved)) [
    | inl nothing ↦ rw nothing (returns _ (refl, refl, refl, tt))
    | inr something ↦ rw something (returns _ (refl, refl, refl, (tt, tt)))
  ]

  pub consume_fill-Settled :
      (user_id : UserId) (symbol : SymbolId) (ts : UnixMicros) (s : PostTrade)
      (fill : Decimal128 × Positions)
      → Ensures
          (Settled (record s { positions = fill.1 }))
          (consume_fill digits user_id symbol ts s fill)
  unfolding consume_fill last_seq
  consume_fill-Settled user_id symbol ts s (pnl, ps) = elim (Bool-cases (is_zero pnl)) [
    | inl opened ↦ rw opened (returns _ (refl, refl, refl, tt))
    | inr closed ↦ rw closed (
        Ensures-then
          (settle_realized_pnl digits user_id symbol pnl ((s.pnl_seq + 1) % word) ts s.ledger)
          (λ done. record_pnl-Settled user_id symbol ts (record s { positions = ps }) done))
  ]

-- Facts of payments number nothing.
abbrev Payments : List Event × Ledger → Type 0
Payments r = AllOf IsFact r.0 × AllOf FromEngine r.0

funding_fact-Payments :
    (user_id : UserId) (symbol : SymbolId) (period : ℕ) (ts : UnixMicros)
    (done : Decimal128 × Ledger)
    → Payments (funding_fact user_id symbol period ts done)
funding_fact-Payments user_id symbol period ts (moved, l) = elim (Bool-cases (is_zero moved)) [
  | inl still ↦ rw still (tt, tt)
  | inr paid ↦ rw paid ((tt, tt), (tt, tt))
]

module _ (digits : ℕ → String) where
  settle_row-Payments :
      (rate mark : Decimal128) (period : ℕ) (ts : UnixMicros) (p : Position) (l : Ledger)
      → Ensures Payments (settle_row digits rate mark period ts p l)
  unfolding settle_row
  settle_row-Payments rate mark period ts p l = Ensures-then (mul p.size mark) λ notional.
      Ensures-then (mul notional (signed_rate p.side rate)) λ payment.
        elim (Bool-cases (is_zero payment)) [
          | inl nothing ↦ rw nothing (returns _ (tt, tt))
          | inr due ↦ rw due (
              Ensures-then _ {f = λ done. some (funding_fact p.user_id p.symbol period ts done)}
                λ done. returns _ (funding_fact-Payments p.user_id p.symbol period ts done))
        ]

  settle_rows-Payments :
      (rate mark : Decimal128) (period : ℕ) (ts : UnixMicros) (ps : List Position) (l : Ledger)
      → Ensures Payments (settle_rows digits rate mark period ts ps l)
  unfolding settle_rows
  settle_rows-Payments rate mark period ts [] l = returns _ (tt, tt)
  settle_rows-Payments rate mark period ts (p ∷ ps) l =
      Ensures-bind Payments (settle_row-Payments rate mark period ts p l) λ now paid.
        Ensures-bind Payments (settle_rows-Payments rate mark period ts ps now.1)
          λ later paid_later. returns _ (
            AllOf-both IsFact now.0 later.0 paid.0 paid_later.0,
            AllOf-both FromEngine now.0 later.0 paid.1 paid_later.1,
          )

  audited-Payments : (r : List Event × Ledger) → Payments r → Ensures Payments (audited r)
  unfolding audited
  audited-Payments (facts, l) paid = Ensures-then _ λ passed. returns _ paid

  pub settle_funding_tick-Settled :
      (rate : Decimal128) (ts : UnixMicros) (s : PostTrade)
      → Ensures (Settled s) (settle_funding_tick digits rate ts s)
  unfolding settle_funding_tick last_seq
  settle_funding_tick-Settled rate ts s =
      elim (Bool-cases
        (not (no_rows (funding_rows (take_positions s.positions))) && is_zero s.mark_price)) [
          | inl skipped ↦ rw skipped (returns _ (refl, refl, refl, tt))
          | inr due ↦ rw due (
              Ensures-bind Payments
                (settle_rows-Payments rate s.mark_price ((s.funding_period_id + 1) % word) ts
                  (funding_rows (take_positions s.positions)) s.ledger)
                λ settled paid.
                  Ensures-bind Payments (audited-Payments settled paid) λ passed paid_passed.
                    returns _ (
                      refl,
                      refl,
                      sym (last_seq-engine passed.0 s.pnl_seq paid_passed.1),
                      paid_passed.0,
                    ))
        ]
