-- ===== src/Inference/Fresh.antt =====
-- The end of the loops of src/vcse/inference: an inferred claim is kept if its key is new.
pub mod Laws
use vcse.Prelude.{Bool, ◌||◌, ◌==◌, string_eq, String, List, [], ◌∷◌, ◌++◌, contains, if◌then◌else◌}

-- `inferred` and `inferred_keys`
pub record Found {ℓ} (C : Type ℓ) : Type ℓ where
  pub inferred : List C
  pub inferred_keys : List String

module _ {ℓ} {C : Type ℓ} (key : C → String) (explicit_keys : List String) where
  unfoldable pub admit : C → Found C → Found C
  admit c s =
      if contains (key c) explicit_keys || contains (key c) s.inferred_keys
      then s
      else record { inferred = s.inferred ++ c ∷ []; inferred_keys = s.inferred_keys ++ key c ∷ [] }

  unfoldable pub admit_all : List C → Found C → Found C
  unfolding admit
  admit_all [] s = s
  admit_all (c ∷ cs) s = admit_all cs (admit c s)
