-- ===== src/Clearing/Projection.antt =====
-- What the events of the log say of the state of post-trade processing,
-- crates/exg-clearing/src/post_trade.rs, its ledger aside.
use exg.Prelude.{ℕ, ◌+◌, ◌%◌, ◌≡◌, ◌∙◌, refl, sym, Option, none, some, List, [], ◌∷◌, ◌++◌}
use exg.Prelude.Lists.{AllOf}
use exg.Decimal.{Decimal128, zero_dec}
use exg.Decimal.Panic.{◌>>=◌}
use exg.Ids.Snowflake.{word}
use exg.Engine.Messages.{
  Event, accepted, rejected, canceled, filled, traded, mark_price_update, funding_rate_update,
  liquidation_order, admin_credited, realized_pnl, funding_settled,
}
use exg.Clearing.Book.{Positions}
use exg.Clearing.PostTrade.{apply_fill_to_position}

-- The positions, the mark price and the number of the last recorded profit after an event.
unfoldable pub positions_after : Event → Positions → Option Positions
positions_after (filled f) ps =
    apply_fill_to_position f.user_id f.symbol f.side f.fill_qty f.fill_price ps >>= λ fill.
    some fill.1
positions_after _ ps = some ps

unfoldable pub mark_after : Event → Decimal128 → Decimal128
mark_after (mark_price_update symbol new index timestamp) mark = new
mark_after _ mark = mark

unfoldable pub seq_after : Event → ℕ → ℕ
seq_after (realized_pnl user_id symbol amount timestamp) seq = (seq + 1) % word
seq_after _ seq = seq

-- The same after a log.
unfoldable pub project : List Event → Positions → Option Positions
project [] ps = some ps
project (ev ∷ evs) ps = positions_after ev ps >>= project evs

unfoldable pub last_mark : List Event → Decimal128 → Decimal128
last_mark [] mark = mark
last_mark (ev ∷ evs) mark = last_mark evs (mark_after ev mark)

unfoldable pub last_seq : List Event → ℕ → ℕ
last_seq [] seq = seq
last_seq (ev ∷ evs) seq = last_seq evs (seq_after ev seq)

-- The events that settle money.
abbrev pub IsFact : Event → Type 0
IsFact (realized_pnl user_id symbol amount timestamp) = Unit
IsFact (funding_settled user_id symbol period amount timestamp) = Unit
IsFact _ = ⊥

-- The events that do not record a profit.
abbrev pub FromEngine : Event → Type 0
FromEngine (realized_pnl user_id symbol amount timestamp) = ⊥
FromEngine _ = Unit

>>=-assoc :
    {A B C : Type 0} (m : Option A) (f : A → Option B) (g : B → Option C)
    → ((m >>= f) >>= g) ≡ (m >>= λ a. f a >>= g)
>>=-assoc none f g = refl
>>=-assoc (some a) f g = refl

>>=-cong :
    {A B : Type 0} (m : Option A) {f g : A → Option B}
    → ((a : A) → f a ≡ g a)
    → (m >>= f) ≡ (m >>= g)
>>=-cong none h = refl
>>=-cong (some a) h = h a

pub project-append :
    (xs ys : List Event) (ps : Positions) → project (xs ++ ys) ps ≡ (project xs ps >>= project ys)
unfolding project
project-append [] ys ps = refl
project-append (x ∷ xs) ys ps =
    >>=-cong (positions_after x ps) (project-append xs ys)
    ∙ sym (>>=-assoc (positions_after x ps) (project xs) (project ys))

pub last_mark-append :
    (xs ys : List Event) (m : Decimal128) → last_mark (xs ++ ys) m ≡ last_mark ys (last_mark xs m)
unfolding last_mark
last_mark-append [] ys m = refl
last_mark-append (x ∷ xs) ys m = last_mark-append xs ys (mark_after x m)

pub last_seq-append :
    (xs ys : List Event) (n : ℕ) → last_seq (xs ++ ys) n ≡ last_seq ys (last_seq xs n)
unfolding last_seq
last_seq-append [] ys n = refl
last_seq-append (x ∷ xs) ys n = last_seq-append xs ys (seq_after x n)

-- A fact changes neither positions nor the mark price, and an event of the engine numbers nothing.
after-fact :
    (ev : Event) (ps : Positions) (m : Decimal128)
    → IsFact ev
    → (positions_after ev ps ≡ some ps) × (mark_after ev m ≡ m)
unfolding positions_after mark_after
after-fact (realized_pnl a b c d) ps m h = (refl, refl)
after-fact (funding_settled a b c d e) ps m h = (refl, refl)
after-fact (accepted a) ps m h = absurd h
after-fact (rejected a b c d) ps m h = absurd h
after-fact (canceled a b c d e) ps m h = absurd h
after-fact (filled f) ps m h = absurd h
after-fact (traded a) ps m h = absurd h
after-fact (mark_price_update a b c d) ps m h = absurd h
after-fact (funding_rate_update a b c) ps m h = absurd h
after-fact (liquidation_order a b c d e) ps m h = absurd h
after-fact (admin_credited a b c d) ps m h = absurd h

after-engine : (ev : Event) (n : ℕ) → FromEngine ev → seq_after ev n ≡ n
unfolding seq_after
after-engine (realized_pnl a b c d) n h = absurd h
after-engine (funding_settled a b c d e) n h = refl
after-engine (accepted a) n h = refl
after-engine (rejected a b c d) n h = refl
after-engine (canceled a b c d e) n h = refl
after-engine (filled f) n h = refl
after-engine (traded a) n h = refl
after-engine (mark_price_update a b c d) n h = refl
after-engine (funding_rate_update a b c) n h = refl
after-engine (liquidation_order a b c d e) n h = refl
after-engine (admin_credited a b c d) n h = refl

pub project-facts : (xs : List Event) (ps : Positions) → AllOf IsFact xs → project xs ps ≡ some ps
unfolding project
project-facts [] ps h = refl
project-facts (x ∷ xs) ps h = rw (after-fact x ps zero_dec h.0).0 (project-facts xs ps h.1)

pub last_mark-facts : (xs : List Event) (m : Decimal128) → AllOf IsFact xs → last_mark xs m ≡ m
unfolding last_mark
last_mark-facts [] m h = refl
last_mark-facts (x ∷ xs) m h = rw (after-fact x [] m h.0).1 (last_mark-facts xs m h.1)

pub last_seq-engine : (xs : List Event) (n : ℕ) → AllOf FromEngine xs → last_seq xs n ≡ n
unfolding last_seq
last_seq-engine [] n h = refl
last_seq-engine (x ∷ xs) n h = rw (after-engine x n h.0) (last_seq-engine xs n h.1)
