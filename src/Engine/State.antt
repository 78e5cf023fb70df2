-- ===== src/Engine/State.antt =====
-- `MatchingEngine` of crates/exg-matching-engine/src/engine.rs. The generator of trade ids is of a
-- type `Gen`, and where an id is drawn the operation `next_id` on it is an argument.
-- The set of replayed ids, which no command reads, is left out.
use exg.Prelude.{ℕ, ltb, ◌==◌, ◌||◌, ◌&&◌, Option, List, [], ◌∷◌, if◌then◌else◌}
use exg.Decimal.{Decimal128, zero_dec}
use exg.Common.Error.{OrderId, UnixMicros}
use exg.Risk.Types.{SymbolConfig}
use exg.Matching.Book.{BookOrder, OrderBook, new_book}
use exg.Engine.Messages.{Event}

-- An entry of the heap: the time of expiry and the order.
abbrev pub Expiry : Type 0
Expiry = UnixMicros × OrderId

pub record MatchingEngine (Gen : Type 0) : Type 0 where
  pub orderbook : OrderBook
  pub symbol_config : SymbolConfig
  pub mark_price : Decimal128
  pub index_price : Decimal128
  pub stop_orders : List BookOrder
  -- the min-heap, in the order in which it pops
  pub expiry_heap : List Expiry
  pub trade_id_gen : Gen
  pub sequence : ℕ
  pub interest_rate : Decimal128
  pub last_funding_rate : Decimal128

-- The events of a command and the engine after it; `none` is a panic of the decimal operators.
abbrev pub Outcome : Type 0 → Type 0
Outcome Gen = Option (List Event × MatchingEngine Gen)

-- `MatchingEngine::new`
unfoldable pub new_engine : {Gen : Type 0} → SymbolConfig → Gen → Decimal128 → MatchingEngine Gen
new_engine symbol_config trade_id_gen interest_rate = record {
  orderbook = new_book symbol_config.symbol;
  symbol_config = symbol_config;
  mark_price = zero_dec;
  index_price = zero_dec;
  stop_orders = [];
  expiry_heap = [];
  trade_id_gen = trade_id_gen;
  sequence = 0;
  interest_rate = interest_rate;
  last_funding_rate = zero_dec;
}

-- `BinaryHeap::push` on the sorted list: entries are compared by time, then by id.
unfoldable pub push_expiry : Expiry → List Expiry → List Expiry
push_expiry x [] = x ∷ []
push_expiry x (y ∷ ys) =
    let rest = push_expiry x ys in
    if ltb x.0 y.0 || x.0 == y.0 && ltb x.1 y.1 then x ∷ y ∷ ys else y ∷ rest
