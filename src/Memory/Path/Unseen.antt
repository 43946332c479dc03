-- ===== src/Memory/Path/Unseen.antt =====
-- How many claims the visit of `dependency_path_for_claim` (src/vcse/memory/world_state.py) has not
-- marked yet, which bounds its depth.
use vcse.Prelude.{
  ℕ, suc, ◌≤◌, ◌<◌, String, true, false, ◌||◌, ◌≡◌, refl, some, List, [], ◌∷◌, ◌++◌, arith,
  contains, ◌==◌, string_eq, length,
}
use text.Mathlib.TextEquality.{eq_iff}
use vcse.Dict.{Dict, get}
use vcse.Memory.Model.{Claim}

abbrev pub In : String → List String → Type 0
In x xs = contains x xs ≡ true

pub contains-append :
    (x : String) (xs ys : List String) → contains x (xs ++ ys) ≡ (contains x xs || contains x ys)
unfolding contains
contains-append x [] ys = refl
contains-append x (y ∷ xs) ys = ground (arith, contains-append x xs ys)

pub In_cons : (x y : String) (ys : List String) → contains x (y ∷ ys) ≡ (y == x || contains x ys)
unfolding contains
In_cons x y ys = refl

pub In_nil : (x : String) → contains x [] ≡ false
unfolding contains
In_nil x = refl

-- How many claims of `d` are not in `seen`
pub unseen : Dict String Claim → List String → ℕ
unseen [] seen = 0
unseen ((k, c) ∷ d) seen = elim (contains k seen) [
  | true ↦ unseen d seen
  | false ↦ suc (unseen d seen)
]

pub unseen-le :
    (d : Dict String Claim) (seen seen' : List String)
    → ((x : String) → In x seen → In x seen')
    → unseen d seen' ≤ unseen d seen
unfolding unseen
unseen-le [] seen seen' h = omega arith
unseen-le ((k, c) ∷ d) seen seen' h = ground (arith, h k, unseen-le d seen seen' h)

pub unseen-mark :
    (d : Dict String Claim) (seen : List String) (i : String) (c : Claim)
    → get d i ≡ some c
    → contains i seen ≡ false
    → unseen d (i ∷ seen) < unseen d seen
unfolding unseen get contains
unseen-mark [] seen i c h n = cc
unseen-mark ((k, b) ∷ d) seen i c h n =
    ground (
      arith,
      eq_iff k i,
      eq_iff i k,
      eq_iff i i,
      unseen-mark d seen i c,
      unseen-le d seen (i ∷ seen),
    )

pub unseen-length : (d : Dict String Claim) (seen : List String) → unseen d seen ≤ length d
unfolding unseen
unseen-length [] seen = omega arith
unseen-length ((k, c) ∷ d) seen = ground (arith, unseen-length d seen)
