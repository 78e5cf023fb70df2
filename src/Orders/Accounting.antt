-- ===== src/Orders/Accounting.antt =====
-- What the fills of an order add up to, crates/exg-order-service/src/service.rs.
use mathlib.Core.Option.{some-injective, some-ne-none}
use exg.Prelude.{
  ◌≡◌, refl, sym, ap, ◌∙◌, Option-cases, inl, inr, true, false, Option, some, List, [], ◌∷◌, ◌++◌,
  if◌then◌else◌, arith,
}
use exg.Decimal.{Decimal128, zero_dec, add, is_zero}
use exg.Decimal.Panic.{◌>>=◌, mul, div, Ensures, returns, Ensures-bind, Ensures-self}
use exg.Engine.Messages.{Filled}
use exg.Orders.Record.{FillRecord, Order}
use exg.Orders.Events.{fill_record, filled_order}

-- The quantities of fills on top of a quantity.
abbrev pub quantities : Decimal128 → List FillRecord → Decimal128
quantities sum [] = sum
quantities sum (f ∷ fs) = quantities (add sum f.qty) fs

-- The prices of fills times their quantities, on top of a sum.
abbrev pub quotes : Decimal128 → List FillRecord → Option Decimal128
quotes sum [] = some sum
quotes sum (f ∷ fs) = mul f.price f.qty >>= λ quote. quotes (add sum quote) fs

-- The executed quantity and the quote of an order are those of its fills, and its average price is
-- their quotient where there is one.
pub record Accounted (o : Order) : Type 0 where
  pub executed : quantities zero_dec o.fills ≡ o.executed_qty
  pub quoted : quotes zero_dec o.fills ≡ some o.total_filled_quote
  pub average :
      is_zero o.executed_qty ≡ false
      → div o.total_filled_quote o.executed_qty ≡ some o.avg_fill_price

quantities-append :
    (sum : Decimal128) (fs : List FillRecord) (f : FillRecord)
    → quantities sum (fs ++ (f ∷ [])) ≡ add (quantities sum fs) f.qty
quantities-append sum [] f = refl
quantities-append sum (g ∷ fs) f = quantities-append (add sum g.qty) fs f

quotes-append :
    (sum : Decimal128) (fs : List FillRecord) (f : FillRecord) (total quote : Decimal128)
    → quotes sum fs ≡ some total
    → mul f.price f.qty ≡ some quote
    → quotes sum (fs ++ (f ∷ [])) ≡ some (add total quote)
quotes-append sum [] f total quote h e = rw e (ap (λ t. some (add t quote)) (some-injective _ _ h))
quotes-append sum (g ∷ fs) f total quote h e = elim (Option-cases (mul g.price g.qty)) [
  | inl aborted ↦ absurd (some-ne-none total (sym (rw aborted at h)))
  | inr (q, product) ↦ rw product (quotes-append (add sum q) fs f total quote (rw product at h) e)
]

pub filled_order-Accounted :
    (f : Filled) (o : Order) → Accounted o → Ensures Accounted (filled_order f o)
unfolding filled_order
filled_order-Accounted f o h =
    Ensures-bind (λ quote. mul f.fill_price f.fill_qty ≡ some quote) (Ensures-self _)
      λ quote product.
        Ensures-bind
          (λ average.
            (if is_zero (add o.executed_qty f.fill_qty)
              then some o.avg_fill_price
              else div (add o.total_filled_quote quote) (add o.executed_qty f.fill_qty))
            ≡ some average)
          (Ensures-self _)
          λ average quotient. returns _ (record {
            executed =
                quantities-append zero_dec o.fills (fill_record f)
                ∙ ap (λ q. add q f.fill_qty) h.executed;
            quoted =
                quotes-append zero_dec o.fills (fill_record f) o.total_filled_quote quote h.quoted
                  product;
            average = λ some_executed. rw some_executed at quotient;
          })

-- An order without fills.
pub unfilled-Accounted :
    (o : Order)
    → o.fills ≡ []
    → o.executed_qty ≡ zero_dec
    → o.total_filled_quote ≡ zero_dec
    → Accounted o
unfolding is_zero
unfilled-Accounted o e executed total = record {
  executed = ap (quantities zero_dec) e ∙ sym executed;
  quoted = ap (quotes zero_dec) e ∙ ap some (sym total);
  average = λ some_executed.
      let none_executed : is_zero o.executed_qty ≡ true = ap is_zero executed in
      absurd (ground (arith, some_executed, none_executed));
}
