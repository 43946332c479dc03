-- ===== src/Ledger/Merkle.antt =====
-- `build_merkle_root` of src/vcse/ledger/merkle.py. `sha256_hex` is a parameter.
pub mod Binding
use Prim.Native.String.{◌++◌ as append}
use vcse.Prelude.{ℕ, zero, suc, String, Option, none, some, List, [], ◌∷◌, length}

module _ (sha256_hex : String → String) where
  -- `next_level`: the last item of an odd level is paired with itself.
  unfoldable pub next_level : List String → List String
  next_level [] = []
  next_level (left ∷ []) = sha256_hex (append left left) ∷ []
  next_level (left ∷ right ∷ level) = sha256_hex (append left right) ∷ next_level level

  -- The `while` loop and `level[0]`, which is there; `none` is that the fuel runs out.
  unfoldable pub climb : (fuel : ℕ) → List String → Option String
  unfolding next_level
  climb zero level = none
  climb (suc fuel) [] = none
  climb (suc fuel) (root ∷ []) = some root
  climb (suc fuel) (left ∷ right ∷ level) = climb fuel (next_level (left ∷ right ∷ level))

  -- Fuel: one pass for each hash
  unfoldable pub build_merkle_root : (hashes : List String) → Option String
  unfolding climb
  build_merkle_root [] = some (sha256_hex "")
  build_merkle_root (h ∷ hashes) = climb (length (h ∷ hashes)) (h ∷ hashes)
