-- ===== src/Tests/Merkle.antt =====
-- src/vcse/ledger/merkle.py with a hash of one character, in which collisions are easy to see.
use Prim.Native.String.{[] as nil, ◌∷◌ as cons}
use vcse.Prelude.{◌≡◌, refl, ◌⊎◌, String, some, List, [], ◌∷◌}
use vcse.Ledger.Merkle.{build_merkle_root}
use vcse.Ledger.Merkle.Binding.{chars, Collision, build_merkle_root_fixes}

-- The first character
first_char : String → String
first_char nil = "0"
first_char (cons c s) = cons c nil

first_char_size : (x : String) → chars (first_char x) ≡ 1
unfolding first_char chars
first_char_size nil = refl
first_char_size (cons c s) = refl

-- The last hash of an odd number counts as often as it is written once more.
odd_twice :
    build_merkle_root first_char ("a" ∷ "b" ∷ "c" ∷ [])
    ≡ build_merkle_root first_char ("a" ∷ "b" ∷ "c" ∷ "c" ∷ [])
unfolding build_merkle_root
odd_twice = refl

abbrev two_hashes : List String
two_hashes = "a" ∷ "b" ∷ []

abbrev others : List String
others = "a" ∷ "c" ∷ []

one_char_each : (chars "a" ≡ 1) × ((chars "b" ≡ 1) × Unit {0})
unfolding chars
one_char_each = (refl, (refl, tt))

other_char_each : (chars "a" ≡ 1) × ((chars "c" ≡ 1) × Unit {0})
unfolding chars
other_char_each = (refl, (refl, tt))

build_merkle_root_fixes_example :
    ((root : String) × (build_merkle_root first_char two_hashes ≡ some root))
    × (build_merkle_root first_char two_hashes ≡ build_merkle_root first_char others
        → (two_hashes ≡ others) ⊎ Collision first_char two_hashes others)
build_merkle_root_fixes_example =
    build_merkle_root_fixes first_char 1 first_char_size two_hashes others refl one_char_each
      other_char_each
