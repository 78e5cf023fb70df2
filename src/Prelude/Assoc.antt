-- ===== src/Prelude/Assoc.antt =====
-- A hash map as an association list. Keys are compared by a decision; the first entry counts.
-- Removal takes every entry of its key.
use Prim.Native.Nat.{ℕ, ◌+◌}
use mathlib.Core.Path.{◌≡◌, subst}
use mathlib.Core.Logic.{◌≢◌}
use mathlib.Core.List.{List, [], ◌∷◌}
use mathlib.Core.Option.{Option, none, some, some-injective}
use native.Mathlib.Omega.{arith}

abbrev pub Assoc : Type 0 → Type 0 → Type 0
Assoc K V = List (K × V)

-- the sum of a measure of the values
unfoldable pub sum_by : {K V : Type 0} → (V → ℕ) → Assoc K V → ℕ
sum_by g [] = 0
sum_by g ((j, v) ∷ m) = g v + sum_by g m

abbrev pub AllValues : {K V : Type 0} → (V → Type 0) → Assoc K V → Type 0
AllValues P [] = Unit
AllValues P ((j, v) ∷ m) = P v × AllValues P m

abbrev pub or_else {ℓ} : {A : Type ℓ} → Option A → A → A
or_else none d = d
or_else (some a) d = a

module _ {K V : Type 0} (dec : Discrete K) where
  unfoldable pub lookup : K → Assoc K V → Option V
  lookup k [] = none
  lookup k ((j, v) ∷ m) = elim (dec j k) [ yes e ↦ some v | no n ↦ lookup k m ]

  -- `get(k).unwrap_or(d)`
  unfoldable pub get_or : K → V → Assoc K V → V
  unfolding lookup
  get_or k d m = or_else (lookup k m) d

  -- `f` on `entry(k).or_insert(d)`
  unfoldable pub upsert : K → V → (V → V) → Assoc K V → Assoc K V
  upsert k d f [] = (k, f d) ∷ []
  upsert k d f ((j, v) ∷ m) = elim (dec j k) [
    | yes e ↦ (j, f v) ∷ m
    | no n ↦ (j, v) ∷ upsert k d f m
  ]

  unfoldable pub remove : K → Assoc K V → Assoc K V
  remove k [] = []
  remove k ((j, v) ∷ m) =
      let rest = remove k m in elim (dec j k) [ yes e ↦ rest | no n ↦ (j, v) ∷ rest ]

  pub lookup-upsert_self :
      (k : K) (d : V) (f : V → V) (m : Assoc K V)
      → lookup k (upsert k d f m) ≡ some (f (get_or k d m))
  unfolding lookup upsert get_or
  lookup-upsert_self k d f [] = ground arith
  lookup-upsert_self k d f ((j, v) ∷ m) = ground (arith, lookup-upsert_self k d f m)

  pub lookup-upsert_ne :
      (i k : K) (d : V) (f : V → V) (m : Assoc K V) → i ≢ k → lookup i (upsert k d f m) ≡ lookup i m
  unfolding lookup upsert
  lookup-upsert_ne i k d f [] h = ground arith
  lookup-upsert_ne i k d f ((j, v) ∷ m) h = ground (arith, lookup-upsert_ne i k d f m h)

  pub sum_by-upsert :
      (g : V → ℕ) (k : K) (d : V) (f : V → V) (m : Assoc K V)
      → g d ≡ 0
      → sum_by g (upsert k d f m) + g (get_or k d m) ≡ sum_by g m + g (f (get_or k d m))
  unfolding lookup upsert get_or sum_by
  sum_by-upsert g k d f [] h = omega arith
  sum_by-upsert g k d f ((j, v) ∷ m) h = ground (arith, sum_by-upsert g k d f m h)

  pub AllValues-upsert :
      (P : V → Type 0) (k : K) (d : V) (f : V → V) (m : Assoc K V)
      → AllValues P m
      → P (f (get_or k d m))
      → AllValues P (upsert k d f m)
  unfolding lookup upsert get_or
  AllValues-upsert P k d f [] h p = (p, tt)
  AllValues-upsert P k d f ((j, v) ∷ m) h p =
      (elim (dec j k)
          as (λ t.
            P (f (or_else {A = V} (elim t [ yes e ↦ some v | no n ↦ lookup k m ]) d))
            → AllValues {K = K} P
                (elim t [ yes e ↦ (j, f v) ∷ m | no n ↦ (j, v) ∷ upsert k d f m ])) [
                  | yes e ↦ λ q. (q, h.1)
                  | no n ↦ λ q. (h.0, AllValues-upsert P k d f m h.1 q)
                ])
        p

  pub AllValues-get_or :
      (P : V → Type 0) (k : K) (d : V) (m : Assoc K V) → AllValues P m → P d → P (get_or k d m)
  unfolding lookup get_or
  AllValues-get_or P k d [] h p = p
  AllValues-get_or P k d ((j, v) ∷ m) h p =
      elim (dec j k)
        as (λ t. P (or_else {A = V} (elim t [ yes e ↦ some v | no n ↦ lookup k m ]) d)) [
          | yes e ↦ h.0
          | no n ↦ AllValues-get_or P k d m h.1 p
        ]

  pub AllValues-lookup :
      (P : V → Type 0) (k : K) (m : Assoc K V) (v : V) → AllValues P m → lookup k m ≡ some v → P v
  unfolding lookup
  AllValues-lookup P k [] v h e = cc
  AllValues-lookup P k ((j, w) ∷ m) v h e =
      (elim (dec j k) as (λ t. elim t [ yes e ↦ some w | no n ↦ lookup k m ] ≡ some v → P v) [
        | yes e ↦ λ q. subst P (some-injective w v q) h.0
        | no n ↦ λ q. AllValues-lookup P k m v h.1 q
      ])
        e

  pub AllValues-remove :
      (P : V → Type 0) (k : K) (m : Assoc K V) → AllValues P m → AllValues P (remove k m)
  unfolding remove
  AllValues-remove P k [] h = tt
  AllValues-remove P k ((j, v) ∷ m) h =
      elim (dec j k)
        as (λ t. AllValues {K = K} P (elim t [ yes e ↦ remove k m | no n ↦ (j, v) ∷ remove k m ])) [
          | yes e ↦ AllValues-remove P k m h.1
          | no n ↦ (h.0, AllValues-remove P k m h.1)
        ]

  pub lookup-remove_self : (k : K) (m : Assoc K V) → lookup k (remove k m) ≡ none
  unfolding lookup remove
  lookup-remove_self k [] = ground arith
  lookup-remove_self k ((j, v) ∷ m) = ground (arith, lookup-remove_self k m)

  pub lookup-remove_ne : (i k : K) (m : Assoc K V) → i ≢ k → lookup i (remove k m) ≡ lookup i m
  unfolding lookup remove
  lookup-remove_ne i k [] h = ground arith
  lookup-remove_ne i k ((j, v) ∷ m) h = ground (arith, lookup-remove_ne i k m h)

  -- A new key goes to the end, from which it can be taken again.
  pub remove-upsert :
      (k : K) (d : V) (f : V → V) (m : Assoc K V)
      → lookup k m ≡ none
      → remove k (upsert k d f m) ≡ m
  unfolding lookup remove upsert
  remove-upsert k d f [] h = ground arith
  remove-upsert k d f ((j, v) ∷ m) h = ground (arith, remove-upsert k d f m)

  -- A change of an entry that a second one undoes.
  pub upsert-upsert :
      (k : K) (d d' v : V) (f g : V → V) (m : Assoc K V)
      → lookup k m ≡ some v
      → g (f v) ≡ v
      → upsert k d' g (upsert k d f m) ≡ m
  unfolding lookup upsert
  upsert-upsert k d d' v f g [] h e = ground arith
  upsert-upsert k d d' v f g ((j, w) ∷ m) h e =
      ground (arith, some-injective w v, upsert-upsert k d d' v f g m)
