-- ===== src/Engine/Conditions.antt =====
-- When conditional orders are set off, and what they become, described apart from the code of
-- crates/exg-matching-engine/src/engine.rs.
use exg.Prelude.{
  ◌≡◌, ◌⊎◌, ◌≤ℤ◌, refl, sym, ap, true, false, Bool, Bool-cases, inl, inr, Option, none, some, List,
  [], ◌∷◌, map, arith, if◌then◌else◌,
}
use exg.Prelude.Assoc.{or_else}
use exg.Decimal.{Decimal128, zero_dec, max_dec, add, sub, lt_dec, le_dec}
use exg.Common.Types.{Side, buy, sell, OrderType}
use exg.Matching.Book.{BookOrder}
use exg.Engine.Entry.{market_price}
use exg.Engine.Stops.{
  is_trailing, follow, follow_peak, update_peak, stop_reached, profit_reached, trail_reached,
  triggers, should_trigger, activate_as, activate,
}

-- A price has come as far as another: from below for a purchase, from above for a sale.
abbrev pub Reaches : Side → Decimal128 → Decimal128 → Type 0
Reaches buy price level = level ≤ℤ price
Reaches sell price level = price ≤ℤ level

-- A peak that is not more than a distance away from the price.
abbrev pub Turned : Side → Decimal128 → Option Decimal128 → Option Decimal128 → Type 0
Turned buy mark (some delta) (some peak) = add peak delta ≤ℤ mark
Turned sell mark (some delta) (some peak) = mark ≤ℤ sub peak delta
Turned side mark _ _ = ⊥

-- A stop waits until the price reaches its level, a take-profit until the level reaches the price,
-- and a trailing stop until the price is its distance away from the peak.
abbrev pub MeetsAs : OrderType → Decimal128 → BookOrder → Type 0
MeetsAs OrderType.stop_market mark o = Reaches o.side mark (or_else o.stop_price zero_dec)
MeetsAs OrderType.stop_limit mark o = Reaches o.side mark (or_else o.stop_price zero_dec)
MeetsAs OrderType.take_profit_market mark o = Reaches o.side (or_else o.stop_price zero_dec) mark
MeetsAs OrderType.take_profit_limit mark o = Reaches o.side (or_else o.stop_price zero_dec) mark
MeetsAs OrderType.trailing_stop mark o = Turned o.side mark o.trailing_delta o.trailing_peak_price
MeetsAs _ mark o = ⊥

abbrev pub Meets : Decimal128 → BookOrder → Type 0
Meets mark o = MeetsAs o.order_type mark o

-- A test decides a proposition.
abbrev Decides : Bool → Type 0 → Type 0
Decides true P = P
Decides false P = ¬ P

le_dec-Decides : (a b : Decimal128) → Decides (le_dec a b) (a ≤ℤ b)
unfolding le_dec
le_dec-Decides a b = elim (Bool-cases (le_dec a b)) [
  | inl h ↦ rw h (ground arith)
  | inr h ↦ rw h (λ k. ground (arith, h, k))
]

stop_reached-Decides :
    (side : Side) (mark stop : Decimal128)
    → Decides (stop_reached side mark stop) (Reaches side mark stop)
unfolding stop_reached
stop_reached-Decides buy mark stop = le_dec-Decides stop mark
stop_reached-Decides sell mark stop = le_dec-Decides mark stop

profit_reached-Decides :
    (side : Side) (mark stop : Decimal128)
    → Decides (profit_reached side mark stop) (Reaches side stop mark)
unfolding profit_reached
profit_reached-Decides buy mark stop = le_dec-Decides mark stop
profit_reached-Decides sell mark stop = le_dec-Decides stop mark

trail_reached-Decides :
    (side : Side) (mark : Decimal128) (delta peak : Option Decimal128)
    → Decides (trail_reached side mark delta peak) (Turned side mark delta peak)
unfolding trail_reached
trail_reached-Decides buy mark (some delta) (some peak) = le_dec-Decides (add peak delta) mark
trail_reached-Decides sell mark (some delta) (some peak) = le_dec-Decides mark (sub peak delta)
trail_reached-Decides buy mark none peak = λ h. h
trail_reached-Decides sell mark none peak = λ h. h
trail_reached-Decides buy mark (some delta) none = λ h. h
trail_reached-Decides sell mark (some delta) none = λ h. h

triggers-Decides :
    (kind : OrderType) (mark : Decimal128) (o : BookOrder)
    → Decides (triggers kind mark o) (MeetsAs kind mark o)
unfolding triggers
triggers-Decides OrderType.stop_market mark o =
    stop_reached-Decides o.side mark (or_else o.stop_price zero_dec)
triggers-Decides OrderType.stop_limit mark o =
    stop_reached-Decides o.side mark (or_else o.stop_price zero_dec)
triggers-Decides OrderType.take_profit_market mark o =
    profit_reached-Decides o.side mark (or_else o.stop_price zero_dec)
triggers-Decides OrderType.take_profit_limit mark o =
    profit_reached-Decides o.side mark (or_else o.stop_price zero_dec)
triggers-Decides OrderType.trailing_stop mark o =
    trail_reached-Decides o.side mark o.trailing_delta o.trailing_peak_price
triggers-Decides OrderType.limit mark o = λ h. h
triggers-Decides OrderType.market mark o = λ h. h
triggers-Decides OrderType.iceberg mark o = λ h. h

pub should_trigger-Meets :
    (mark : Decimal128) (o : BookOrder) → should_trigger mark o ≡ true → Meets mark o
should_trigger-Meets mark o h = let d = triggers-Decides o.order_type mark o in rw h at d

pub should_trigger_not-Meets :
    (mark : Decimal128) (o : BookOrder) → should_trigger mark o ≡ false → ¬ Meets mark o
should_trigger_not-Meets mark o h = let d = triggers-Decides o.order_type mark o in rw h at d

-- What a triggered order enters the book as: a market order at the extreme price of its side, or a
-- limit order at its own price.
abbrev pub AtMarket : BookOrder → BookOrder → Type 0
AtMarket o a =
    (o.side ≡ buy) × (a ≡ record o { order_type = OrderType.market; price = max_dec })
    ⊎ (o.side ≡ sell) × (a ≡ record o { order_type = OrderType.market; price = zero_dec })

abbrev pub BecomesAs : OrderType → BookOrder → BookOrder → Type 0
BecomesAs OrderType.stop_market o a = AtMarket o a
BecomesAs OrderType.take_profit_market o a = AtMarket o a
BecomesAs OrderType.trailing_stop o a = AtMarket o a
BecomesAs OrderType.stop_limit o a = a ≡ record o { order_type = OrderType.limit }
BecomesAs OrderType.take_profit_limit o a = a ≡ record o { order_type = OrderType.limit }
BecomesAs _ o a = a ≡ o

abbrev pub Becomes : BookOrder → BookOrder → Type 0
Becomes o a = BecomesAs o.order_type o a

market_price-AtMarket :
    (o : BookOrder) (side : Side)
    → o.side ≡ side
    → AtMarket o (record o { order_type = OrderType.market; price = market_price side })
unfolding market_price
market_price-AtMarket o buy e = inl (e, refl)
market_price-AtMarket o sell e = inr (e, refl)

activate_as-Becomes : (kind : OrderType) (o : BookOrder) → BecomesAs kind o (activate_as kind o)
unfolding activate_as
activate_as-Becomes OrderType.stop_market o = market_price-AtMarket o o.side refl
activate_as-Becomes OrderType.take_profit_market o = market_price-AtMarket o o.side refl
activate_as-Becomes OrderType.trailing_stop o = market_price-AtMarket o o.side refl
activate_as-Becomes OrderType.stop_limit o = refl
activate_as-Becomes OrderType.take_profit_limit o = refl
activate_as-Becomes OrderType.limit o = refl
activate_as-Becomes OrderType.market o = refl
activate_as-Becomes OrderType.iceberg o = refl

pub activate-Becomes : (o : BookOrder) → Becomes o (activate o)
activate-Becomes o = activate_as-Becomes o.order_type o

-- The new peak is the old one or the price, and neither is beyond it.
abbrev pub IsPeak : Side → Decimal128 → Decimal128 → Decimal128 → Type 0
IsPeak buy mark peak q = (q ≤ℤ peak) × (q ≤ℤ mark) × ((q ≡ peak) ⊎ (q ≡ mark))
IsPeak sell mark peak q = (peak ≤ℤ q) × (mark ≤ℤ q) × ((q ≡ peak) ⊎ (q ≡ mark))

-- A trailing stop with a peak takes the new one, and every other order stays.
abbrev pub FollowsAs : OrderType → Option Decimal128 → Decimal128 → BookOrder → BookOrder → Type 0
FollowsAs OrderType.trailing_stop (some peak) mark o o' =
    (q : Decimal128) × IsPeak o.side mark peak q × (o' ≡ record o { trailing_peak_price = some q })
FollowsAs _ _ mark o o' = o' ≡ o

-- The orders with their peaks moved to a price, one for each in their order.
abbrev pub AllFollow : Decimal128 → List BookOrder → List BookOrder → Type 0
AllFollow mark [] [] = Unit
AllFollow mark (o ∷ os) (o' ∷ os') =
    FollowsAs o.order_type o.trailing_peak_price mark o o' × AllFollow mark os os'
AllFollow mark _ _ = ⊥

follow-IsPeak :
    (side : Side) (mark peak : Decimal128) → IsPeak side mark peak (follow side mark peak)
unfolding follow lt_dec
follow-IsPeak buy mark peak = elim (Bool-cases (lt_dec mark peak)) [
  | inl h ↦ rw h (ground arith, ground arith, inr refl)
  | inr h ↦ rw h (ground arith, ground arith, inl refl)
]
follow-IsPeak sell mark peak = elim (Bool-cases (lt_dec peak mark)) [
  | inl h ↦ rw h (ground arith, ground arith, inr refl)
  | inr h ↦ rw h (ground arith, ground arith, inl refl)
]

-- What `update_peak` does to an order of a kind with a peak.
moved : OrderType → Option Decimal128 → Decimal128 → BookOrder → BookOrder
moved kind peak mark o =
    if is_trailing kind then record o { trailing_peak_price = follow_peak o.side mark peak } else o

moved-FollowsAs :
    (kind : OrderType) (peak : Option Decimal128) (mark : Decimal128) (o : BookOrder)
    → o.trailing_peak_price ≡ peak
    → FollowsAs kind peak mark o (moved kind peak mark o)
unfolding moved
moved-FollowsAs OrderType.trailing_stop (some peak) mark o e =
    (follow o.side mark peak, follow-IsPeak o.side mark peak, refl)
moved-FollowsAs OrderType.trailing_stop none mark o e =
    ap (λ peak. record o { trailing_peak_price = peak }) (sym e)
moved-FollowsAs OrderType.stop_market peak mark o e = refl
moved-FollowsAs OrderType.stop_limit peak mark o e = refl
moved-FollowsAs OrderType.take_profit_market peak mark o e = refl
moved-FollowsAs OrderType.take_profit_limit peak mark o e = refl
moved-FollowsAs OrderType.limit peak mark o e = refl
moved-FollowsAs OrderType.market peak mark o e = refl
moved-FollowsAs OrderType.iceberg peak mark o e = refl

pub update_peak-AllFollow :
    (mark : Decimal128) (os : List BookOrder) → AllFollow mark os (map (update_peak mark) os)
unfolding update_peak moved
update_peak-AllFollow mark [] = tt
update_peak-AllFollow mark (o ∷ os) =
    (moved-FollowsAs o.order_type o.trailing_peak_price mark o refl, update_peak-AllFollow mark os)
