-- ===== src/Engine/Extraction.antt =====
-- The loops with `swap_remove` of crates/exg-matching-engine/src/engine.rs: a list of orders is
-- split by a test.
use mathlib.Core.List.{Perm}
use mathlib.Core.List.Perm
use exg.Prelude.{
  ℕ, zero, suc, ◌≡◌, ◌≤◌, refl, ap, Bool, true, false, Bool-cases, inl, inr, List, [], ◌∷◌, ◌++◌,
  arith,
}
use mathlib.Core.List.{perm_middle}
use exg.Prelude.Lists.{AllOf, length}
use exg.Matching.Book.{BookOrder}
use exg.Engine.Cancel.{split_last, swap_out, extract, swap_extract}

-- A list as its elements that pass a test and those that do not.
pub record Split (test : BookOrder → Bool) (os taken kept : List BookOrder) : Type 0 where
  pub whole : Perm os (taken ++ kept)
  pub passed : AllOf (λ o. test o ≡ true) taken
  pub failed : AllOf (λ o. test o ≡ false) kept

split_last-perm :
    (o : BookOrder) (os : List BookOrder)
    → Perm (o ∷ os) ((split_last o os).1 ∷ (split_last o os).0)
unfolding split_last
split_last-perm o [] = Perm.refl _
split_last-perm o (p ∷ ps) =
    Perm.trans (Perm.cons o (split_last-perm p ps))
      (Perm.swap (split_last p ps).1 o (split_last p ps).0)

swap_out-perm : (os : List BookOrder) → Perm os (swap_out os)
unfolding swap_out
swap_out-perm [] = Perm.refl _
swap_out-perm (p ∷ ps) = split_last-perm p ps

length-split_last : (o : BookOrder) (os : List BookOrder) → length (split_last o os).0 ≡ length os
unfolding split_last
length-split_last o [] = refl
length-split_last o (p ∷ ps) = ap (λ (n : ℕ). suc n) (length-split_last p ps)

length-swap_out : (os : List BookOrder) → length (swap_out os) ≡ length os
unfolding swap_out
length-swap_out [] = refl
length-swap_out (p ∷ ps) = ap (λ (n : ℕ). suc n) (length-split_last p ps)

extract-Split :
    (fuel : ℕ) (test : BookOrder → Bool) (os : List BookOrder)
    → length os ≤ fuel
    → Split test os (extract fuel test os).0 (extract fuel test os).1
unfolding extract
extract-Split zero test [] h = record { whole = Perm.refl _; passed = tt; failed = tt }
extract-Split zero test (o ∷ os) h = absurd (omega arith)
extract-Split (suc fuel) test [] h = record { whole = Perm.refl _; passed = tt; failed = tt }
extract-Split (suc fuel) test (o ∷ os) h = elim (Bool-cases (test o)) [
  | inl yes_it ↦
      let rest = extract-Split fuel test (swap_out os) (omega (arith, length-swap_out os)) in
      rw yes_it (record {
        whole = Perm.cons o (Perm.trans (swap_out-perm os) rest.whole);
        passed = (yes_it, rest.passed);
        failed = rest.failed;
      })
  | inr no_it ↦
      let rest = extract-Split fuel test os (omega arith) in
      rw no_it (record {
        whole = Perm.trans (Perm.cons o rest.whole) (Perm.symm (perm_middle _ _));
        passed = rest.passed;
        failed = (no_it, rest.failed);
      })
]

pub swap_extract-Split :
    (test : BookOrder → Bool) (os : List BookOrder)
    → Split test os (swap_extract test os).0 (swap_extract test os).1
unfolding swap_extract
swap_extract-Split test os = extract-Split (length os) test os (omega arith)
