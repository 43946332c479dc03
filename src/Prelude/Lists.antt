-- ===== src/Prelude/Lists.antt =====
-- Lists measured by native numbers, predicates on all items, and Python's list helpers.
use Prim.Native.Nat.{ℕ, zero, suc, ◌+◌, ◌≤◌}
use mathlib.Core.Path.{◌≡◌, refl, ap}
use mathlib.Core.Logic.{◌⊎◌, inl, inr}
use mathlib.Core.Bool.{Bool, true, false, ◌||◌}
use mathlib.Core.Option.{Option, none, some}
use mathlib.Core.List.{List, [], ◌∷◌, ◌++◌, map}
use native.Mathlib.Omega.{arith}

module _ {ℓ} {A : Type ℓ} where
  abbrev pub length : List A → ℕ
  length [] = 0
  length (x ∷ xs) = suc (length xs)

  abbrev pub take : ℕ → List A → List A
  take zero xs = []
  take (suc n) [] = []
  take (suc n) (x ∷ xs) = x ∷ take n xs

  -- `not xs`
  abbrev pub is_empty : List A → Bool
  is_empty [] = true
  is_empty (x ∷ xs) = false

  abbrev pub first : List A → Option A
  first [] = none
  first (x ∷ xs) = some x

  -- `any(p(x) for x in xs)`
  unfoldable pub any : (A → Bool) → List A → Bool
  any p [] = false
  any p (x ∷ xs) = p x || any p xs

  -- `[x for x in xs if p(x)]`
  unfoldable pub filterb : (A → Bool) → List A → List A
  filterb p [] = []
  filterb p (x ∷ xs) = elim (p x) [ true ↦ x ∷ filterb p xs | false ↦ filterb p xs ]

  pub append-nil : (xs : List A) → xs ++ [] ≡ xs
  append-nil [] = refl
  append-nil (x ∷ xs) = ap (λ ys. x ∷ ys) (append-nil xs)

  pub append_assoc : (xs ys zs : List A) → (xs ++ ys) ++ zs ≡ xs ++ (ys ++ zs)
  append_assoc [] ys zs = refl
  append_assoc (x ∷ xs) ys zs = ap (λ ws. x ∷ ws) (append_assoc xs ys zs)

  pub length-append : (xs ys : List A) → length (xs ++ ys) ≡ length xs + length ys
  length-append [] ys = omega arith
  length-append (x ∷ xs) ys = omega (arith, length-append xs ys)

  pub length-take-le : (n : ℕ) (xs : List A) → length (take n xs) ≤ n
  length-take-le zero xs = omega arith
  length-take-le (suc n) [] = omega arith
  length-take-le (suc n) (x ∷ xs) = omega (arith, length-take-le n xs)

abbrev pub All {ℓ κ} : {A : Type ℓ} → (A → Type κ) → List A → Type κ
All P [] = Unit
All P (x ∷ xs) = P x × All P xs

-- `x` stands in the list.
pub data Member {ℓ} {A : Type ℓ} (x : A) : List A → Type ℓ where
  here : (y : A) (xs : List A) → y ≡ x → Member x (y ∷ xs)
  there : (y : A) (xs : List A) → Member x xs → Member x (y ∷ xs)

module _ {ℓ} {A : Type ℓ} (x : A) where
  pub Member-append : (xs ys : List A) → Member x xs → Member x (xs ++ ys)
  Member-append [] ys m = elim m [ ]
  Member-append (y ∷ xs) ys (here _ _ e) = here y (xs ++ ys) e
  Member-append (y ∷ xs) ys (there _ _ m) = there y (xs ++ ys) (Member-append xs ys m)

  pub Member-append_right : (xs ys : List A) → Member x ys → Member x (xs ++ ys)
  Member-append_right [] ys m = m
  Member-append_right (y ∷ xs) ys m = there y (xs ++ ys) (Member-append_right xs ys m)

  pub Member-last : (xs : List A) → Member x (xs ++ x ∷ [])
  Member-last xs = Member-append_right xs (x ∷ []) (here x [] refl)

  pub Member-append_cases : (xs ys : List A) → Member x (xs ++ ys) → Member x xs ⊎ Member x ys
  Member-append_cases [] ys m = inr m
  Member-append_cases (y ∷ xs) ys (here _ _ e) = inl (here y xs e)
  Member-append_cases (y ∷ xs) ys (there _ _ m) = elim (Member-append_cases xs ys m) [
    | inl k ↦ inl (there y xs k)
    | inr k ↦ inr k
  ]

pub Member-map {ℓ κ} :
    {A : Type ℓ} {B : Type κ} (f : A → B) (x : A) (xs : List A)
    → Member x xs
    → Member (f x) (map f xs)
Member-map f x [] m = elim m [ ]
Member-map f x (y ∷ xs) (here _ _ e) = here (f y) (map f xs) (ap f e)
Member-map f x (y ∷ xs) (there _ _ m) = there (f y) (map f xs) (Member-map f x xs m)

pub Member-map_inv {ℓ κ} :
    {A : Type ℓ} {B : Type κ} (f : A → B) (y : B) (xs : List A)
    → Member y (map f xs)
    → (x : A) × Member x xs × (f x ≡ y)
Member-map_inv f y [] m = elim m [ ]
Member-map_inv f y (x ∷ xs) (here _ _ e) = (x, here x xs refl, e)
Member-map_inv f y (x ∷ xs) (there _ _ m) =
    let (z, n, e) = Member-map_inv f y xs m in (z, there x xs n, e)
