-- ===== src/Matching/Matcher.antt =====
-- Price-time matching, crates/exg-matching-engine/src/matcher.rs.
use exg.Prelude.{
  ◌&&◌, Bool, true, false, Option, none, some, List, [], ◌∷◌, ◌++◌, map, if◌then◌else◌,
}
use exg.Decimal.{Decimal128, sub, min, lt_dec, le_dec, eq_dec, is_zero}
use exg.Common.Error.{OrderId, UserId}
use exg.Common.Types.{Side, buy, sell, TimeInForce, is_limit}
use exg.Matching.Book.{
  BookOrder, OrderBook, Levels, better, resting, remove_order, get_order, update_qty, best_ask,
  best_bid, available_qty_at_price, total_opposite_qty,
}

pub record Fill : Type 0 where
  pub maker_order_id : OrderId
  pub taker_order_id : OrderId
  pub maker_user_id : UserId
  pub taker_user_id : UserId
  pub price : Decimal128
  pub quantity : Decimal128
  pub taker_side : Side

pub record MatchResult : Type 0 where
  pub fills : List Fill
  pub rejected : Bool

-- What the loops change: the book, the taker and the fills.
pub record Matching : Type 0 where
  pub book : OrderBook
  pub taker : BookOrder
  pub fills : List Fill

-- The rest of a maker stays on the book, unless there is none.
unfoldable pub settle_maker : OrderId → Decimal128 → OrderBook → OrderBook
settle_maker maker_id left b =
    if is_zero left then (remove_order maker_id b).1 else update_qty maker_id left b

-- The fill of the taker against one maker.
unfoldable pub fill_maker : OrderId → BookOrder → Matching → Matching
fill_maker maker_id maker m =
    let fill_qty = min m.taker.remaining_qty maker.remaining_qty in
    record {
      book = settle_maker maker_id (sub maker.remaining_qty fill_qty) m.book;
      taker = record m.taker { remaining_qty = sub m.taker.remaining_qty fill_qty };
      fills =
          m.fills
          ++ (record {
            maker_order_id = maker_id;
            taker_order_id = m.taker.order_id;
            maker_user_id = maker.user_id;
            taker_user_id = m.taker.user_id;
            price = maker.price;
            quantity = fill_qty;
            taker_side = m.taker.side;
          }
              ∷ []);
    }

-- One round of the loop over the orders of a level: an id that is not on the book is skipped.
unfoldable pub match_found : OrderId → Option BookOrder → Matching → Matching
match_found maker_id none m = m
match_found maker_id (some maker) m = fill_maker maker_id maker m

unfoldable pub match_maker : OrderId → Matching → Matching
unfolding match_found get_order
match_maker maker_id m = match_found maker_id (get_order maker_id m.book) m

-- The loop over the orders of a level, first come first served.
unfoldable pub match_ids : List OrderId → Matching → Matching
match_ids [] m = m
match_ids (maker_id ∷ ids) m =
    let rest = match_ids ids (match_maker maker_id m) in
    if is_zero m.taker.remaining_qty then m else rest

-- The ids of the level with a price, in their order.
unfoldable pub ids_at : Decimal128 → Levels → List OrderId
ids_at price [] = []
ids_at price (l ∷ ls) =
    let rest = ids_at price ls in if eq_dec l.price price then l.orders else rest

-- The loop over the prices collected before it, on the side `side` of the makers: it ends at a
-- price that is worse than the limit of the taker.
unfoldable pub match_prices : Side → List Decimal128 → Matching → Matching
match_prices side [] m = m
match_prices side (price ∷ prices) m =
    let rest = match_prices side prices (match_ids (ids_at price (resting side m.book)) m) in
    if is_zero m.taker.remaining_qty
    then m
    else if is_limit m.taker.order_type && better side m.taker.price price
    then m
    else rest

unfoldable pub match_against_asks : Matching → Matching
match_against_asks m = match_prices sell (map (λ l. l.price) m.book.asks) m

unfoldable pub match_against_bids : Matching → Matching
match_against_bids m = match_prices buy (map (λ l. l.price) m.book.bids) m

-- Whether an order would take from the book.
unfoldable pub would_match : BookOrder → OrderBook → Bool
would_match order b = elim order.side [
  | buy ↦ elim (best_ask b) [ none ↦ false | some ask ↦ le_dec ask order.price ]
  | sell ↦ elim (best_bid b) [ none ↦ false | some bid ↦ le_dec order.price bid ]
]

-- What a fill-or-kill order can reach.
unfoldable pub fok_available : BookOrder → OrderBook → Decimal128
fok_available order b =
    if is_limit order.order_type
    then available_qty_at_price order.side order.price b
    else total_opposite_qty order.side b

-- The matching itself, against the other side of the book.
unfoldable pub execute : BookOrder → OrderBook → Matching
execute order b =
    let start : Matching = record { book = b; taker = order; fills = [] } in
    elim order.side [ buy ↦ match_against_asks start | sell ↦ match_against_bids start ]

abbrev pub is_post_only : TimeInForce → Bool
is_post_only TimeInForce.post_only = true
is_post_only _ = false

abbrev pub is_fok : TimeInForce → Bool
is_fok TimeInForce.fok = true
is_fok _ = false

abbrev pub without_fills : Bool → BookOrder → OrderBook → MatchResult × BookOrder × OrderBook
without_fills rejected order b = (record { fills = []; rejected = rejected }, order, b)

-- The result, with the order and the book that are left.
unfoldable pub match_order : BookOrder → OrderBook → MatchResult × BookOrder × OrderBook
match_order order b =
    let m = execute order b in
    if is_post_only order.time_in_force
    then without_fills (would_match order b) order b
    else if is_fok order.time_in_force && lt_dec (fok_available order b) order.remaining_qty
    then without_fills true order b
    else (record { fills = m.fills; rejected = false }, m.taker, m.book)
