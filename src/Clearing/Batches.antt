-- ===== src/Clearing/Batches.antt =====
-- The post-trade side of the matching thread, crates/exg-server/src/lib.rs: the log that it appends.
-- The decoding of commands and the events that the engine answers are given.
use Prim.Native.String.{String}
use exg.Prelude.{ℕ, some, List, [], ◌∷◌, ◌++◌}
use exg.Decimal.{Decimal128}
use exg.Decimal.Panic.{◌>>=◌}
use exg.Common.Error.{UserId, UnixMicros}
use exg.Engine.Messages.{Event}
use exg.Clearing.PostTrade.{PostTrade, Consumed}
use exg.Clearing.Log.{consume, handle_admin_credit}

-- What a popped command comes to: a credit, or the events of the engine and the time.
pub data Batch : Type 0 where
  admin_credit : UserId → Decimal128 → String → UnixMicros → Batch
  engine_events : UnixMicros → List Event → Batch

module _ (digits : ℕ → String) where
  unfoldable pub process_batch : Batch → PostTrade → Consumed
  process_batch (admin_credit user_id amount key ts) s = handle_admin_credit user_id amount key ts s
  process_batch (engine_events now evs) s =
      consume digits now evs s >>= λ done. some (evs ++ done.0, done.1)

  -- The log of all of them, and the state after it.
  unfoldable pub process_batches : List Batch → PostTrade → Consumed
  process_batches [] s = some ([], s)
  process_batches (b ∷ bs) s = do
    now ← process_batch b s
    later ← process_batches bs now.1
    some (now.0 ++ later.0, later.1)
