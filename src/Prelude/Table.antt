-- ===== src/Prelude/Table.antt =====
-- A table of allowed pairs, read by its second or its first component.
use mathlib.Core.Path.{◌≡◌, refl}
use mathlib.Core.Bool.{true}
use mathlib.Core.List.{List, [], ◌∷◌}
use mathlib.Core.Logic.{inl, inr}
use mathlib.Core.Path.{subst}
use vcse.Prelude.Lists.{All}
use vcse.Prelude.Tests.{Bool-cases, if◌then◌else◌}
use vcse.Prelude.Equality.{Eq, ◌==◌, pair_eq, contains}
use native.Mathlib.Omega.{arith}

module _ {ℓ} {A : Type ℓ} ⦃e : Eq A⦄ where
  -- What stands before `b` in the table
  abbrev pub sources : A → List (A × A) → List A
  sources b [] = []
  sources b (p ∷ ps) = let rest = sources b ps in if p.1 == b then p.0 ∷ rest else rest

  -- What stands after `a` in the table
  abbrev pub targets : A → List (A × A) → List A
  targets a [] = []
  targets a (p ∷ ps) = let rest = targets a ps in if p.0 == a then p.1 ∷ rest else rest

  pub contains-sources :
      (a b : A) (ps : List (A × A)) → contains (a, b) ps ≡ contains a (sources b ps)
  unfolding contains
  contains-sources a b [] = refl
  contains-sources a b (p ∷ ps) = ground (arith, contains-sources a b ps)

  pub contains-targets :
      (a b : A) (ps : List (A × A)) → contains (a, b) ps ≡ contains b (targets a ps)
  unfolding contains
  contains-targets a b [] = refl
  contains-targets a b (p ∷ ps) = ground (arith, contains-targets a b ps)

  pub contains-All {κ} :
      (P : A → Type κ) (a : A) (xs : List A) → All P xs → contains a xs ≡ true → P a
  unfolding contains
  contains-All P a [] h m = cc
  contains-All P a (x ∷ xs) (p, h) m = elim (Bool-cases (x == a)) [
    | inl same ↦ subst P ((e.beq_iff x a).0 same) p
    | inr other ↦ contains-All P a xs h (ground (arith, m, other))
  ]

pub list_head {ℓ} : {A : Type ℓ} {x y : A} {xs ys : List A} → x ∷ xs ≡ y ∷ ys → x ≡ y
list_head e = cc

pub list_tail {ℓ} : {A : Type ℓ} {x y : A} {xs ys : List A} → x ∷ xs ≡ y ∷ ys → xs ≡ ys
list_tail e = cc
