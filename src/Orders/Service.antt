-- ===== src/Orders/Service.antt =====
-- `OrderService` of crates/exg-order-service/src/service.rs. A hash map is an association list. A
-- computation that may abort is an `Option`.
use native.Mathlib.Decide.{ℕ_discrete}
use exg.Prelude.{ℕ, ◌==◌, leb, ◌&&◌, not, Option, none, some, List, [], ◌∷◌, ◌++◌, if◌then◌else◌}
use exg.Prelude.Lists.{length, drop}
use exg.Prelude.Assoc.{Assoc, lookup, get_or, upsert, remove}
use exg.Decimal.{zero_dec}
use exg.Decimal.Panic.{◌>>=◌}
use exg.Common.Error.{OrderId, UserId, SymbolId, UnixMicros}
use exg.Common.Types.{OrderStatus, fresh, canceled, is_terminal}
use exg.Engine.Messages.{NewOrder, Command, new_order}
use exg.Matching.Book.{retain_others}
use exg.Orders.Record.{Order}

abbrev pub ClientKey : Type 0
ClientKey = UserId × ℕ

unfoldable pub ClientKey-discrete : Discrete ClientKey
ClientKey-discrete = hlevel ℕ_discrete

pub record OrderService : Type 0 where
  pub orders : Assoc OrderId Order
  pub user_active_orders : Assoc UserId (List OrderId)
  pub client_order_map : Assoc ClientKey OrderId
  pub completed_orders : List Order
  pub max_completed_history : ℕ

unfoldable pub new_service : ℕ → OrderService
new_service max_completed_history = record {
  orders = [];
  user_active_orders = [];
  client_order_map = [];
  completed_orders = [];
  max_completed_history = max_completed_history;
}

unfoldable pub get_order : OrderId → OrderService → Option Order
unfolding lookup
get_order order_id s = lookup ℕ_discrete order_id s.orders

-- A write through `orders.get_mut`, or an insertion.
unfoldable pub set_order : OrderId → Order → OrderService → OrderService
unfolding upsert
set_order order_id o s = record s { orders = upsert ℕ_discrete order_id o (λ _. o) s.orders }

-- The entry of a user goes with its last id.
abbrev pub keep_ids :
    UserId → List OrderId → Assoc UserId (List OrderId) → Assoc UserId (List OrderId)
keep_ids user_id [] m = remove ℕ_discrete user_id m
keep_ids user_id (id ∷ ids) m = upsert ℕ_discrete user_id [] (λ _. id ∷ ids) m

abbrev pub retain_ids :
    UserId
    → OrderId
    → Option (List OrderId)
    → Assoc UserId (List OrderId)
    → Assoc UserId (List OrderId)
retain_ids user_id order_id none m = m
retain_ids user_id order_id (some ids) m = keep_ids user_id (retain_others order_id ids) m

unfoldable pub drop_active :
    UserId → OrderId → Assoc UserId (List OrderId) → Assoc UserId (List OrderId)
drop_active user_id order_id m = retain_ids user_id order_id (lookup ℕ_discrete user_id m) m

abbrev pub drop_client : UserId → Option ℕ → Assoc ClientKey OrderId → Assoc ClientKey OrderId
drop_client user_id none m = m
drop_client user_id (some cid) m = remove ClientKey-discrete (user_id, cid) m

abbrev pub add_client : Order → Assoc ClientKey OrderId → Assoc ClientKey OrderId
add_client o m = elim (o.client_order_id) [
  | none ↦ m
  | some cid ↦ upsert ClientKey-discrete (o.user_id, cid) o.order_id (λ _. o.order_id) m
]

-- `pop_front` on a full buffer, then `push_back`
unfoldable pub push_completed : Order → OrderService → OrderService
push_completed o s = record s {
  completed_orders =
      (if leb s.max_completed_history (length s.completed_orders)
        then drop 1 s.completed_orders
        else s.completed_orders)
      ++ (o ∷ []);
}

abbrev pub complete : OrderId → UserId → Option Order → OrderService → OrderService
complete order_id user_id none s = s
complete order_id user_id (some o) s = push_completed o (record s {
  orders = remove ℕ_discrete order_id s.orders;
  user_active_orders = drop_active user_id order_id s.user_active_orders;
  client_order_map = drop_client user_id o.client_order_id s.client_order_map;
})

unfoldable pub move_to_completed : OrderId → UserId → OrderService → OrderService
move_to_completed order_id user_id s = complete order_id user_id (get_order order_id s) s

-- A new order, with its entries in the two indices.
unfoldable pub add_order : Order → OrderService → OrderService
add_order o s =
    let s' = set_order o.order_id o s in
    record s' {
      user_active_orders =
          upsert ℕ_discrete o.user_id [] (λ ids. ids ++ (o.order_id ∷ [])) s'.user_active_orders;
      client_order_map = add_client o s'.client_order_map;
    }

abbrev pub order_of : NewOrder → Order
order_of c = record {
  order_id = c.order_id;
  user_id = c.user_id;
  symbol = c.symbol;
  client_order_id = c.client_order_id;
  side = c.side;
  order_type = c.order_type;
  time_in_force = c.time_in_force;
  price = c.price;
  stop_price = c.stop_price;
  original_qty = c.quantity;
  executed_qty = zero_dec;
  remaining_qty = c.quantity;
  status = fresh;
  margin_mode = c.margin_mode;
  leverage = c.leverage;
  reduce_only = c.reduce_only;
  avg_fill_price = zero_dec;
  total_filled_quote = zero_dec;
  commission = zero_dec;
  created_at = c.timestamp;
  updated_at = c.timestamp;
  fills = [];
}

abbrev pub create_known : NewOrder → Option Order → OrderService → OrderService
create_known c (some o) s = s
create_known c none s = add_order (order_of c) s

unfoldable pub create_order : Command → OrderService → Option Order × OrderService
create_order (new_order c) s =
    let s' = create_known c (get_order c.order_id s) s in (get_order c.order_id s', s')
create_order _ s = (none, s)

unfoldable pub batch_create_orders :
    List Command → OrderService → List (Option OrderId) × OrderService
batch_create_orders [] s = ([], s)
batch_create_orders (c ∷ cs) s =
    let (o, s') = create_order c s in
    let (rest, s'') = batch_create_orders cs s' in
    (elim o [ none ↦ none | some order ↦ some order.order_id ] ∷ rest, s'')

-- The ids of a user, none where there is no entry.
unfoldable pub ids_of : UserId → OrderService → List OrderId
unfolding get_or
ids_of user_id s = get_or ℕ_discrete user_id [] s.user_active_orders

abbrev pub put_found : Option Order → List Order → List Order
put_found none os = os
put_found (some o) os = o ∷ os

-- The orders of some ids that are there.
unfoldable pub found_orders : List OrderId → OrderService → List Order
found_orders [] s = []
found_orders (id ∷ ids) s = put_found (get_order id s) (found_orders ids s)

unfoldable pub of_symbol : SymbolId → List Order → List Order
of_symbol symbol [] = []
of_symbol symbol (o ∷ os) =
    let rest = of_symbol symbol os in if o.symbol == symbol then o ∷ rest else rest

unfoldable pub live_ids : SymbolId → List Order → List OrderId
live_ids symbol [] = []
live_ids symbol (o ∷ os) =
    let rest = live_ids symbol os in
    if o.symbol == symbol && not (is_terminal o.status) then o.order_id ∷ rest else rest

unfoldable pub get_order_by_client_id : UserId → ℕ → OrderService → Option Order
get_order_by_client_id user_id cid s =
    lookup ClientKey-discrete (user_id, cid) s.client_order_map >>= λ id. get_order id s

unfoldable pub get_user_active_orders : UserId → OrderService → List Order
get_user_active_orders user_id s = found_orders (ids_of user_id s) s

unfoldable pub get_user_symbol_orders : UserId → SymbolId → OrderService → List Order
get_user_symbol_orders user_id symbol s = of_symbol symbol (found_orders (ids_of user_id s) s)

unfoldable pub of_user : UserId → List Order → List Order
of_user user_id [] = []
of_user user_id (o ∷ os) =
    let rest = of_user user_id os in if o.user_id == user_id then o ∷ rest else rest

unfoldable pub get_user_completed_orders : UserId → OrderService → List Order
get_user_completed_orders user_id s = of_user user_id s.completed_orders

unfoldable pub active_order_count : OrderService → ℕ
active_order_count s = length s.orders

-- An order that is there and not terminal takes a status and a time.
abbrev pub close_known :
    OrderId → OrderStatus → UnixMicros → Option Order → OrderService → OrderService
close_known id status now none s = s
close_known id status now (some o) s =
    if is_terminal o.status
    then s
    else set_order id (record o { status = status; updated_at = now }) s

-- The loop body.
unfoldable pub cancel_one : UserId → UnixMicros → OrderId → OrderService → OrderService
cancel_one user_id now id s =
    move_to_completed id user_id (close_known id canceled now (get_order id s) s)

unfoldable pub cancel_listed : UserId → UnixMicros → List OrderId → OrderService → OrderService
cancel_listed user_id now [] s = s
cancel_listed user_id now (id ∷ ids) s = cancel_listed user_id now ids (cancel_one user_id now id s)

abbrev pub time_of : Option Order → UnixMicros
time_of none = 0
time_of (some o) = o.updated_at

abbrev pub cancel_ids : UserId → List OrderId → OrderService → List OrderId × OrderService
cancel_ids user_id [] s = ([], s)
cancel_ids user_id (id ∷ ids) s =
    (id ∷ ids, cancel_listed user_id (time_of (get_order id s)) (id ∷ ids) s)

unfoldable pub cancel_user_symbol_orders :
    UserId → SymbolId → OrderService → List OrderId × OrderService
cancel_user_symbol_orders user_id symbol s =
    cancel_ids user_id (live_ids symbol (found_orders (ids_of user_id s) s)) s
