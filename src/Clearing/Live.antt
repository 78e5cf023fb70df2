-- ===== src/Clearing/Live.antt =====
-- Live processing of the events of the engine, crates/exg-clearing/src/post_trade.rs.
use Prim.Native.String.{String}
use exg.Prelude.{ℕ, ◌≡◌, ◌∙◌, refl, sym, ap, Option, none, some, List, [], ◌∷◌}
use exg.Prelude.Lists.{AllOf, AllOf-both}
use exg.Decimal.Panic.{◌>>=◌, Ensures, returns, aborts, Ensures-bind, Ensures-map}
use exg.Common.Error.{UnixMicros}
use exg.Engine.Messages.{
  Event, accepted, rejected, canceled, filled, traded, mark_price_update, funding_rate_update,
  liquidation_order, admin_credited, realized_pnl, funding_settled,
}
use exg.Clearing.PostTrade.{PostTrade, apply_fill_to_position}
use exg.Clearing.Log.{consume_event, consume}
use exg.Clearing.Projection.{
  positions_after, mark_after, project, last_mark, last_seq, IsFact, last_seq-append,
}
use exg.Clearing.Settled.{Settled, consume_fill-Settled, settle_funding_tick-Settled}

-- A step of live processing: its facts, and the state that the event and the facts project to.
abbrev LiveStep : Event → PostTrade → List Event × PostTrade → Type 0
LiveStep ev s r =
    (positions_after ev s.positions ≡ some r.1.positions)
    × (r.1.mark_price ≡ mark_after ev s.mark_price)
    × (r.1.pnl_seq ≡ last_seq r.0 s.pnl_seq)
    × AllOf IsFact r.0

-- The same of a list of events.
abbrev pub Live : List Event → PostTrade → List Event × PostTrade → Type 0
Live evs s r =
    (project evs s.positions ≡ some r.1.positions)
    × (r.1.mark_price ≡ last_mark evs s.mark_price)
    × (r.1.pnl_seq ≡ last_seq r.0 s.pnl_seq)
    × AllOf IsFact r.0

-- A binding whose computation is kept as an equation.
Ensures-known :
    {A B : Type 0} {P : B → Type 0} (m : Option A) {f : A → Option B}
    → ((a : A) → m ≡ some a → Ensures P (f a))
    → Ensures P (m >>= f)
Ensures-known none k = aborts
Ensures-known (some a) k = k a refl

module _ (digits : ℕ → String) where
  Settled-Live :
      (ev : Event) (s : PostTrade) (r : List Event × PostTrade)
      → positions_after ev s.positions ≡ some s.positions
      → mark_after ev s.mark_price ≡ s.mark_price
      → Settled s r
      → LiveStep ev s r
  Settled-Live ev s r still same h = (still ∙ ap some (sym h.0), h.1 ∙ sym same, h.2, h.3)

  consume_event-Live :
      (ts : UnixMicros) (ev : Event) (s : PostTrade)
      → Ensures (LiveStep ev s) (consume_event digits ts ev s)
  unfolding consume_event positions_after mark_after last_seq
  consume_event-Live ts (filled f) s =
      Ensures-known
        (apply_fill_to_position f.user_id f.symbol f.side f.fill_qty f.fill_price s.positions)
        λ fill known.
          Ensures-map (Settled (record s { positions = fill.1 }))
            (consume_fill-Settled digits f.user_id f.symbol ts s fill)
            λ r h. (rw known (ap some (sym h.0)), h.1, h.2, h.3)
  consume_event-Live ts (funding_rate_update symbol rate timestamp) s =
      Ensures-map (Settled s) (settle_funding_tick-Settled digits rate ts s)
        λ r h. Settled-Live (funding_rate_update symbol rate timestamp) s r refl refl h
  consume_event-Live ts (mark_price_update a b c d) s = returns _ (refl, refl, refl, tt)
  consume_event-Live ts (accepted a) s = returns _ (refl, refl, refl, tt)
  consume_event-Live ts (rejected a b c d) s = returns _ (refl, refl, refl, tt)
  consume_event-Live ts (canceled a b c d e) s = returns _ (refl, refl, refl, tt)
  consume_event-Live ts (traded a) s = returns _ (refl, refl, refl, tt)
  consume_event-Live ts (liquidation_order a b c d e) s = returns _ (refl, refl, refl, tt)
  consume_event-Live ts (admin_credited a b c d) s = returns _ (refl, refl, refl, tt)
  consume_event-Live ts (realized_pnl a b c d) s = returns _ (refl, refl, refl, tt)
  consume_event-Live ts (funding_settled a b c d e) s = returns _ (refl, refl, refl, tt)

  pub consume-Live :
      (ts : UnixMicros) (evs : List Event) (s : PostTrade)
      → Ensures (Live evs s) (consume digits ts evs s)
  unfolding consume project last_mark last_seq
  consume-Live ts [] s = returns _ (refl, refl, refl, tt)
  consume-Live ts (ev ∷ evs) s = Ensures-bind (LiveStep ev s) (consume_event-Live ts ev s) λ now h.
      Ensures-bind (Live evs now.1) (consume-Live ts evs now.1) λ later k. returns _ (
        rw h.0 k.0,
        k.1 ∙ ap (last_mark evs) h.1,
        k.2 ∙ ap (last_seq later.0) h.2 ∙ sym (last_seq-append now.0 later.0 s.pnl_seq),
        AllOf-both IsFact now.0 later.0 h.3 k.3,
      )
