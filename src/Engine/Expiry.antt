-- ===== src/Engine/Expiry.antt =====
-- Orders with a time of expiry, `check_expirations` of crates/exg-matching-engine/src/engine.rs.
use exg.Prelude.{Option, none, some, List, [], ◌∷◌, ◌++◌, ltb, if◌then◌else◌}
use exg.Common.Error.{OrderId, UnixMicros}
use exg.Matching.Book.{BookOrder, OrderBook, remove_order}
use exg.Engine.Messages.{Event, canceled}
use exg.Engine.State.{MatchingEngine, Expiry}

-- What the loop changes.
pub record Sweep : Type 0 where
  pub events : List Event
  pub heap : List Expiry
  pub book : OrderBook

-- The event of an entry whose order was still on the book.
abbrev pub expired_event : OrderId → UnixMicros → Option BookOrder → List Event
expired_event order_id now none = []
expired_event order_id now (some order) =
    canceled order_id order.user_id order.symbol order.remaining_qty now ∷ []

unfoldable pub sweep : UnixMicros → List Expiry → OrderBook → Sweep
sweep now [] book = record { events = []; heap = []; book = book }
sweep now ((time, order_id) ∷ heap) book =
    let removed = remove_order order_id book in
    let rest = sweep now heap removed.1 in
    if ltb now time
    then record { events = []; heap = (time, order_id) ∷ heap; book = book }
    else record rest { events = expired_event order_id now removed.0 ++ rest.events }

module _ {Gen : Type 0} where
  unfoldable pub check_expirations :
      UnixMicros → MatchingEngine Gen → List Event × MatchingEngine Gen
  unfolding sweep
  check_expirations now e =
      let swept = sweep now e.expiry_heap e.orderbook in
      (swept.events, record e { expiry_heap = swept.heap; orderbook = swept.book })
