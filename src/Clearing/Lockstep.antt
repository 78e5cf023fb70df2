-- ===== src/Clearing/Lockstep.antt =====
-- Live processing and replay, crates/exg-clearing/src/post_trade.rs, in their positions, mark price
-- and numbers of profits.
use Prim.Native.String.{String}
use mathlib.Core.Option.{some-injective, some-ne-none}
use exg.Prelude.{ℕ, ◌+◌, ◌%◌, ◌≡◌, ◌∙◌, refl, sym, ap, Option, none, some, List, [], ◌∷◌}
use exg.Prelude.Lists.{AllOf}
use exg.Decimal.{Decimal128, neg}
use exg.Decimal.Panic.{◌>>=◌, Ensures, returns, Ensures-bind, Ensures-then, Ensures-some}
use exg.Engine.Messages.{
  Event, accepted, rejected, canceled, filled, traded, mark_price_update, funding_rate_update,
  liquidation_order, admin_credited, realized_pnl, funding_settled,
}
use exg.Ledger.State.{Ledger, Outcome}
use exg.Ledger.Settlement.{funding_key}
use exg.Ids.Snowflake.{word}
use exg.Clearing.Book.{Positions}
use exg.Clearing.PostTrade.{PostTrade, apply_fill_to_position, pnl_key, touch_account, ignore}
use exg.Clearing.Log.{apply_event, later_period, replay_log, handle_admin_credit}
use exg.Clearing.Batches.{Batch, admin_credit, engine_events, process_batch, process_batches}
use exg.Clearing.Survival.{Survives, settle_realized_pnl_capped-Survives, deposit-Survives}
use exg.Clearing.Live.{Live, consume-Live}
use exg.Clearing.Projection.{
  positions_after, mark_after, seq_after, project, last_mark, last_seq, FromEngine, project-append,
  last_mark-append, last_seq-append, project-facts, last_mark-facts, last_seq-engine,
}

-- The positions, the mark price and the number of the last profit.
abbrev pub HoldsOf : Positions → Decimal128 → ℕ → PostTrade → Type 0
HoldsOf ps mark seq s = (s.positions ≡ ps) × (s.mark_price ≡ mark) × (s.pnl_seq ≡ seq)

-- Two states that agree in them.
abbrev pub Agree : PostTrade → PostTrade → Type 0
Agree s r = HoldsOf s.positions s.mark_price s.pnl_seq r

-- The events of the engine record no profit.
abbrev pub IsEngineBatch : Batch → Type 0
IsEngineBatch (admin_credit user_id amount key ts) = Unit
IsEngineBatch (engine_events now evs) = AllOf FromEngine evs

>>=-some :
    {A B : Type 0} (m : Option A) {f : A → Option B} {b : B}
    → (m >>= f) ≡ some b
    → (a : A) × (m ≡ some a) × (f a ≡ some b)
>>=-some none e = absurd (some-ne-none _ (sym e))
>>=-some (some a) e = (a, refl, e)

>>=-Survives :
    {A : Type 0} (x : Outcome A × Ledger) (after : Ledger → PostTrade)
    → Survives x
    → (ignore x >>= λ l. some (after l)) ≡ some (after x.1)
>>=-Survives x after h = ap (λ m. m >>= λ l. some (after l)) h

module _ (digits : ℕ → String) where
  apply_event-replays :
      (ev : Event) (r : PostTrade) (ps : Positions)
      → positions_after ev r.positions ≡ some ps
      → (r' : PostTrade) × (apply_event digits ev r ≡ some r')
        × HoldsOf ps (mark_after ev r.mark_price) (seq_after ev r.pnl_seq) r'
  unfolding apply_event positions_after mark_after seq_after
  apply_event-replays (filled f) r ps e =
      let (fill, known, end) =
        >>=-some
          (apply_fill_to_position f.user_id f.symbol f.side f.fill_qty f.fill_price r.positions)
          e in
      (
        _,
        ap (λ m. m >>= λ done. some (record r { positions = done.1 })) known,
        (some-injective _ _ end, refl, refl),
      )
  apply_event-replays (admin_credited user_id amount key timestamp) r ps e =
      let after : Ledger → PostTrade = λ l. record r { ledger = l } in
      (
        _,
        >>=-Survives _ after
            (deposit-Survives user_id amount key timestamp (touch_account user_id r.ledger)),
        (some-injective _ _ e, refl, refl),
      )
  apply_event-replays (realized_pnl user_id symbol amount timestamp) r ps e =
      let seq = (r.pnl_seq + 1) % word in
      let after : Ledger → PostTrade = λ l. record r { ledger = l; pnl_seq = seq } in
      (
        _,
        >>=-Survives _ after (
            settle_realized_pnl_capped-Survives user_id amount (pnl_key digits seq user_id symbol)
              timestamp (touch_account user_id r.ledger)),
        (some-injective _ _ e, refl, refl),
      )
  apply_event-replays (funding_settled user_id symbol period amount timestamp) r ps e =
      let after : Ledger → PostTrade =
        λ l. record r { ledger = l; funding_period_id = later_period period r.funding_period_id } in
      (
        _,
        >>=-Survives _ after (
            settle_realized_pnl_capped-Survives user_id (neg amount)
              (funding_key digits period user_id symbol) timestamp
              (touch_account user_id r.ledger)),
        (some-injective _ _ e, refl, refl),
      )
  apply_event-replays (mark_price_update a mark b c) r ps e =
      (_, refl, (some-injective _ _ e, refl, refl))
  apply_event-replays (accepted a) r ps e = (_, refl, (some-injective _ _ e, refl, refl))
  apply_event-replays (rejected a b c d) r ps e = (_, refl, (some-injective _ _ e, refl, refl))
  apply_event-replays (canceled a b c d f) r ps e = (_, refl, (some-injective _ _ e, refl, refl))
  apply_event-replays (traded a) r ps e = (_, refl, (some-injective _ _ e, refl, refl))
  apply_event-replays (funding_rate_update a b c) r ps e =
      (_, refl, (some-injective _ _ e, refl, refl))
  apply_event-replays (liquidation_order a b c d f) r ps e =
      (_, refl, (some-injective _ _ e, refl, refl))

  -- A replay goes through where the fills of the log do.
  replay_log-replays :
      (evs : List Event) (r : PostTrade) (ps : Positions)
      → project evs r.positions ≡ some ps
      → (r' : PostTrade) × (replay_log digits evs r ≡ some r')
        × HoldsOf ps (last_mark evs r.mark_price) (last_seq evs r.pnl_seq) r'
  unfolding replay_log project last_mark last_seq
  replay_log-replays [] r ps e = (r, refl, (some-injective _ _ e, refl, refl))
  replay_log-replays (ev ∷ evs) r ps e =
      let (next, known, rest) = >>=-some (positions_after ev r.positions) e in
      let (mid, step, (at, mark, seq)) = apply_event-replays ev r next known in
      let (end, run, (at', mark', seq')) =
        replay_log-replays evs mid ps (ap (project evs) at ∙ rest) in
      (
        end,
        (ap (λ m. m >>= replay_log digits evs) step ∙ run),
        (at', mark' ∙ ap (last_mark evs) mark, seq' ∙ ap (last_seq evs) seq),
      )

  -- A log whose projection is the state after it.
  abbrev Logged : PostTrade → List Event × PostTrade → Type 0
  Logged s r =
      (project r.0 s.positions ≡ some r.1.positions)
      × (r.1.mark_price ≡ last_mark r.0 s.mark_price)
      × (r.1.pnl_seq ≡ last_seq r.0 s.pnl_seq)

  process_batch-Logged :
      (b : Batch) (s : PostTrade) → IsEngineBatch b → Ensures (Logged s) (process_batch digits b s)
  unfolding process_batch handle_admin_credit project positions_after last_mark mark_after last_seq
      seq_after
  process_batch-Logged (admin_credit user_id amount key ts) s h =
      Ensures-then _ λ done. returns _ (refl, refl, refl)
  process_batch-Logged (engine_events now evs) s h =
      Ensures-bind (Live evs s) (consume-Live digits now evs s) λ done live. returns _ (
        project-append evs done.0 s.positions
            ∙ ap (λ m. m >>= project done.0) live.0
            ∙ project-facts done.0 done.1.positions live.3,
        live.1
            ∙ sym (last_mark-facts done.0 _ live.3)
            ∙ sym (last_mark-append evs done.0 s.mark_price),
        live.2
            ∙ ap (last_seq done.0) (sym (last_seq-engine evs s.pnl_seq h))
            ∙ sym (last_seq-append evs done.0 s.pnl_seq),
      )

  process_batches-Logged :
      (bs : List Batch) (s : PostTrade)
      → AllOf IsEngineBatch bs
      → Ensures (Logged s) (process_batches digits bs s)
  unfolding process_batches project last_mark last_seq
  process_batches-Logged [] s h = returns _ (refl, refl, refl)
  process_batches-Logged (b ∷ bs) s h =
      Ensures-bind (Logged s) (process_batch-Logged b s h.0) λ now k.
        Ensures-bind (Logged now.1) (process_batches-Logged bs now.1 h.1) λ later l. returns _ (
          project-append now.0 later.0 s.positions ∙ ap (λ m. m >>= project later.0) k.0 ∙ l.0,
          l.1 ∙ ap (last_mark later.0) k.1 ∙ sym (last_mark-append now.0 later.0 s.mark_price),
          l.2 ∙ ap (last_seq later.0) k.2 ∙ sym (last_seq-append now.0 later.0 s.pnl_seq),
        )

-- Batches of commands go through, with a log and a state. From a state that agrees with the one
-- before them in positions, mark price and number of the last profit, the replay of the log goes
-- through, and ends in a state that agrees with the one after them. No event of the engine in the
-- batches records a profit.
pub process_batches-replay :
    (digits : ℕ → String) (bs : List Batch) (s r : PostTrade) (log : List Event) (s' : PostTrade)
    → AllOf IsEngineBatch bs
    → process_batches digits bs s ≡ some (log, s')
    → Agree s r
    → (r' : PostTrade) × (replay_log digits log r ≡ some r') × Agree s' r'
process_batches-replay digits bs s r log s' h e (at, mark, seq) =
    let (projected, mark_log, seq_log) =
      Ensures-some (Logged digits s) (process_batches-Logged digits bs s h) e in
    let (r', run, (at', mark', seq')) =
      replay_log-replays digits log r s'.positions (ap (project log) at ∙ projected) in
    (
      r',
      run,
      (
        at',
        mark' ∙ ap (last_mark log) mark ∙ sym mark_log,
        seq' ∙ ap (last_seq log) seq ∙ sym seq_log,
      ),
    )
