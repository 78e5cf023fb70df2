-- ===== src/Clearing/Grouping.antt =====
-- The groups of positions of a scan, crates/exg-clearing/src/risk_monitor.rs.
use mathlib.Core.Path.{subst}
use mathlib.Core.List.{append_assoc, append-nil}
use native.Mathlib.Decide.{ℕ_discrete}
use exg.Prelude.{
  ◌==◌, ==→eq, ◌≡◌, ◌≢◌, refl, sym, ap, ◌∙◌, Bool-cases, inl, inr, Option, none, some, List, [],
  ◌∷◌, ◌++◌, if◌then◌else◌, arith,
}
use exg.Prelude.Assoc.{Assoc, lookup, get_or, or_else, lookup-upsert_self, lookup-upsert_ne}
use exg.Prelude.Distinct.{IsDistinct, upsert-IsDistinct}
use exg.Decimal.{Decimal128}
use exg.Decimal.Panic.{Ensures, returns, Ensures-bind, Ensures-self, Ensures-map}
use exg.Common.Error.{UserId, SymbolId}
use exg.Risk.Types.{Position}
use exg.Risk.Margin.{calc_unrealized_pnl}
use exg.Clearing.Book.{revalue}
use exg.Clearing.Monitor.{Groups, push_position, group_positions}

-- A position with its profit at a price, and as it was where there is no price.
abbrev pub IsRevalued : Option Decimal128 → Position → Position → Type 0
IsRevalued none p p' = p' ≡ p
IsRevalued (some price) p p' =
    (pnl : Decimal128) × (calc_unrealized_pnl p.entry_price price p.size p.side ≡ some pnl)
    × (p' ≡ record p { unrealized_pnl = pnl })

-- Positions with their profits, one for each in their order.
abbrev pub AllRevalued : (SymbolId → Option Decimal128) → List Position → List Position → Type 0
AllRevalued price [] [] = Unit
AllRevalued price (p ∷ ps) (p' ∷ ps') = IsRevalued (price p.symbol) p p' × AllRevalued price ps ps'
AllRevalued price _ _ = ⊥

abbrev pub positions_of : UserId → List Position → List Position
positions_of user_id [] = []
positions_of user_id (p ∷ ps) =
    if p.user_id == user_id then p ∷ positions_of user_id ps else positions_of user_id ps

revalue-IsRevalued :
    (price : Option Decimal128) (p : Position)
    → Ensures (λ p'. IsRevalued price p p' × (p'.user_id ≡ p.user_id)) (revalue price p)
unfolding revalue
revalue-IsRevalued none p = returns p (refl, refl)
revalue-IsRevalued (some price) p =
    Ensures-bind _ (Ensures-self (calc_unrealized_pnl p.entry_price price p.size p.side))
      λ pnl e. returns (record p { unrealized_pnl = pnl }) ((pnl, e, refl), refl)

-- The positions of a user in the groups.
abbrev pub group_of : UserId → Groups → List Position
group_of user_id groups = or_else (lookup ℕ_discrete user_id groups) []

push_position_self :
    (p : Position) (groups : Groups)
    → group_of p.user_id (push_position p groups) ≡ group_of p.user_id groups ++ (p ∷ [])
unfolding push_position get_or
push_position_self p groups =
    ap (λ found. or_else found [])
      (lookup-upsert_self ℕ_discrete p.user_id [] (λ ps. ps ++ (p ∷ [])) groups)

push_position_other :
    (user_id : UserId) (p : Position) (groups : Groups)
    → user_id ≢ p.user_id
    → group_of user_id (push_position p groups) ≡ group_of user_id groups
unfolding push_position
push_position_other user_id p groups other =
    ap (λ found. or_else found [])
      (lookup-upsert_ne ℕ_discrete user_id p.user_id [] (λ ps. ps ++ (p ∷ [])) groups other)

grown :
    (p : Position) (groups : Groups) (user_id : UserId)
    → p.user_id ≡ user_id
    → group_of user_id (push_position p groups) ≡ group_of user_id groups ++ (p ∷ [])
grown p groups user_id same =
    subst (λ u. group_of u (push_position p groups) ≡ group_of u groups ++ (p ∷ [])) same
      (push_position_self p groups)

-- The groups with the positions of a list behind those of others: each user has one group, which
-- has the positions of the user in their order.
abbrev pub Grouped : (SymbolId → Option Decimal128) → List Position → Groups → Groups → Type 0
Grouped price positions before groups =
    IsDistinct groups
    × ((user_id : UserId)
        → (ps : List Position) × AllRevalued price (positions_of user_id positions) ps
          × (group_of user_id groups ≡ group_of user_id before ++ ps))

pub group_positions-Grouped :
    (prices : Assoc SymbolId Decimal128) (positions : List Position) (before : Groups)
    → IsDistinct before
    → Ensures
        (Grouped (λ symbol. lookup ℕ_discrete symbol prices) positions before)
        (group_positions prices positions before)
unfolding group_positions push_position
group_positions-Grouped prices [] before h =
    returns before (h, λ user_id. ([], tt, sym (append-nil _)))
group_positions-Grouped prices (p ∷ positions) before h =
    Ensures-bind _ (revalue-IsRevalued (lookup ℕ_discrete p.symbol prices) p) λ p' (valued, user).
      Ensures-map _
        (group_positions-Grouped prices positions (push_position p' before)
          (upsert-IsDistinct p'.user_id [] (λ ps. ps ++ (p' ∷ [])) before h))
        λ groups (once, all). (
          once,
          λ user_id.
              let (ps, valued_rest, found) = all user_id in
              elim (Bool-cases (p.user_id == user_id)) [
                | inl own ↦
                    let same : p'.user_id ≡ user_id = user ∙ ==→eq _ _ own in
                    rw own (
                      p' ∷ ps,
                      (valued, valued_rest),
                      found
                          ∙ ap (λ (l : List Position). l ++ ps) (grown p' before user_id same)
                          ∙ append_assoc (group_of user_id before) (p' ∷ []) ps,
                    )
                | inr foreign ↦
                    let other : user_id ≢ p'.user_id = λ e. ground (arith, foreign, e, user) in
                    rw foreign (
                      ps,
                      valued_rest,
                      found
                          ∙ ap (λ (l : List Position). l ++ ps)
                              (push_position_other user_id p' before other),
                    )
              ],
        )
