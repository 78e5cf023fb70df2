-- ===== src/Engine/Numbering.antt =====
-- The ids of the trades that the commands of crates/exg-matching-engine/src/engine.rs make.
use mathlib.Core.Path.{subst}
use exg.Prelude.{◌≡◌, refl, ap, List, [], ◌∷◌, ◌++◌}
use exg.Engine.Messages.{
  TradeId, Event, accepted, rejected, canceled, filled, traded, mark_price_update,
  funding_rate_update, liquidation_order, admin_credited, realized_pnl, funding_settled,
}

unfoldable pub trade_ids : List Event → List TradeId
trade_ids [] = []
trade_ids (traded trade ∷ es) = trade.trade_id ∷ trade_ids es
trade_ids (_ ∷ es) = trade_ids es

module _ {Gen : Type 0} (next_id : Gen → TradeId × Gen) where
  -- The ids are drawn one after another, from a first generator on, which a last one comes of.
  abbrev pub Draws : Gen → Gen → List TradeId → Type 0
  Draws g g' [] = g' ≡ g
  Draws g g' (id ∷ ids) = (id ≡ (next_id g).0) × Draws (next_id g).1 g' ids

  pub Draws-append :
      (g mid g' : Gen) (ids ids' : List TradeId)
      → Draws g mid ids
      → Draws mid g' ids'
      → Draws g g' (ids ++ ids')
  Draws-append g mid g' [] ids' h k = subst (λ m. Draws m g' ids') h k
  Draws-append g mid g' (id ∷ ids) ids' h k =
      (h.0, Draws-append (next_id g).1 mid g' ids ids' h.1 k)

pub trade_ids-append : (es fs : List Event) → trade_ids (es ++ fs) ≡ trade_ids es ++ trade_ids fs
unfolding trade_ids
trade_ids-append [] fs = refl
trade_ids-append (traded trade ∷ es) fs =
    ap (λ (r : List TradeId). trade.trade_id ∷ r) (trade_ids-append es fs)
trade_ids-append (accepted a ∷ es) fs = trade_ids-append es fs
trade_ids-append (rejected i u r t ∷ es) fs = trade_ids-append es fs
trade_ids-append (canceled i u s q t ∷ es) fs = trade_ids-append es fs
trade_ids-append (filled f ∷ es) fs = trade_ids-append es fs
trade_ids-append (mark_price_update s m i t ∷ es) fs = trade_ids-append es fs
trade_ids-append (funding_rate_update s r t ∷ es) fs = trade_ids-append es fs
trade_ids-append (liquidation_order u s d q t ∷ es) fs = trade_ids-append es fs
trade_ids-append (admin_credited u a k t ∷ es) fs = trade_ids-append es fs
trade_ids-append (realized_pnl u s a t ∷ es) fs = trade_ids-append es fs
trade_ids-append (funding_settled u s p a t ∷ es) fs = trade_ids-append es fs
