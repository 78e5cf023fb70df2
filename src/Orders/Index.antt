-- ===== src/Orders/Index.antt =====
-- The indices of the order service, crates/exg-order-service/src/service.rs.
use exg.Prelude.{
  ℕ, ◌+◌, ◌==◌, ◌≡◌, false, Option, none, some, List, [], ◌∷◌, ◌++◌, if◌then◌else◌, arith,
}
use exg.Prelude.Assoc.{lookup}
use exg.Common.Error.{OrderId, UserId}
use exg.Common.Types.{is_terminal}
use exg.Matching.Book.{retain_others}
use exg.Orders.Record.{Order}
use exg.Orders.Service.{OrderService, ClientKey-discrete, get_order, ids_of}
use exg.Prelude.Distinct.{IsDistinct}

abbrev pub count : OrderId → List OrderId → ℕ
count id [] = 0
count id (x ∷ xs) = (if x == id then 1 else 0) + count id xs

-- Whether an order is there and the user's.
abbrev pub owned : UserId → Option Order → ℕ
owned user_id none = 0
owned user_id (some o) = if o.user_id == user_id then 1 else 0

-- The order that an entry of the client ids names.
abbrev pub Named : UserId → ℕ → OrderId → OrderService → Type 0
Named user_id cid id s =
    (o : Order) × (get_order id s ≡ some o) × (o.user_id ≡ user_id) × (o.client_order_id ≡ some cid)

-- Each key of the orders stands once. Orders are kept under their ids, the list of a user names each order of the user once and no
-- other, and an entry of the client ids names an order with this client id.
pub record Indexed (s : OrderService) : Type 0 where
  pub distinct : IsDistinct s.orders
  pub keyed : (id : OrderId) (o : Order) → get_order id s ≡ some o → o.order_id ≡ id
  pub listed :
      (user_id : UserId) (id : OrderId)
      → count id (ids_of user_id s) ≡ owned user_id (get_order id s)
  pub clients :
      (user_id : UserId) (cid : ℕ) (id : OrderId)
      → lookup ClientKey-discrete (user_id, cid) s.client_order_map ≡ some id
      → Named user_id cid id s

abbrev pub AllLive : OrderService → Type 0
AllLive s = (id : OrderId) (o : Order) → get_order id s ≡ some o → is_terminal o.status ≡ false

pub count-retain_others :
    (id' id : OrderId) (ids : List OrderId)
    → count id' (retain_others id ids) ≡ (if id' == id then 0 else count id' ids)
unfolding retain_others
count-retain_others id' id [] = ground arith
count-retain_others id' id (x ∷ xs) = ground (arith, count-retain_others id' id xs)

pub count-snoc :
    (id' id : OrderId) (ids : List OrderId)
    → count id' (ids ++ (id ∷ [])) ≡ count id' ids + (if id == id' then 1 else 0)
count-snoc id' id [] = omega arith
count-snoc id' id (x ∷ xs) = omega (arith, count-snoc id' id xs)
