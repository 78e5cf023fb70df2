-- ===== src/Prelude/Distinct.antt =====
-- Association lists in which each key stands once.
use native.Mathlib.Decide.{ℕ_discrete}
use exg.Prelude.{ℕ, ◌≡◌, refl, ap, ◌∙◌, none, [], ◌∷◌}
use exg.Prelude.Assoc.{
  Assoc, lookup, upsert, remove, lookup-upsert_ne, lookup-remove_self, lookup-remove_ne,
}

abbrev pub IsDistinct : {V : Type 0} → Assoc ℕ V → Type 0
IsDistinct [] = Unit
IsDistinct ((k, o) ∷ m) = (lookup ℕ_discrete k m ≡ none) × IsDistinct m

pub upsert-IsDistinct :
    {V : Type 0} (id : ℕ) (o : V) (f : V → V) (m : Assoc ℕ V)
    → IsDistinct m
    → IsDistinct (upsert ℕ_discrete id o f m)
unfolding upsert lookup
upsert-IsDistinct id o f [] h = (refl, tt)
upsert-IsDistinct id o f ((k, p) ∷ m) h =
    elim (ℕ_discrete k id)
      as (λ t.
        IsDistinct (elim t [ yes e ↦ (k, f p) ∷ m | no n ↦ (k, p) ∷ upsert ℕ_discrete id o f m ])) [
          | yes same ↦ h
          | no other ↦
              (lookup-upsert_ne ℕ_discrete k id o f m other ∙ h.0, upsert-IsDistinct id o f m h.1)
        ]

lookup-remove_none :
    {V : Type 0} (id k : ℕ) (m : Assoc ℕ V)
    → lookup ℕ_discrete k m ≡ none
    → lookup ℕ_discrete k (remove ℕ_discrete id m) ≡ none
lookup-remove_none id k m h = elim (ℕ_discrete k id) [
  | yes same ↦
      ap (λ j. lookup ℕ_discrete j (remove ℕ_discrete id m)) same
      ∙ lookup-remove_self ℕ_discrete id m
  | no other ↦ lookup-remove_ne ℕ_discrete k id m other ∙ h
]

pub remove-IsDistinct :
    {V : Type 0} (id : ℕ) (m : Assoc ℕ V) → IsDistinct m → IsDistinct (remove ℕ_discrete id m)
unfolding remove
remove-IsDistinct id [] h = tt
remove-IsDistinct id ((k, p) ∷ m) h =
    elim (ℕ_discrete k id)
      as (λ t.
        IsDistinct
          (elim t [ yes e ↦ remove ℕ_discrete id m | no n ↦ (k, p) ∷ remove ℕ_discrete id m ])) [
            | yes same ↦ remove-IsDistinct id m h.1
            | no other ↦ (lookup-remove_none id k m h.0, remove-IsDistinct id m h.1)
          ]
