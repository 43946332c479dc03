-- ===== src/Packs/Version.antt =====
-- The versions that dependencies ask for: `_semver` and `_version_satisfies` of
-- src/vcse/packs/resolver.py. `int(text)` and `str.isdigit` of a character are parameters.
use Prim.Native.Char.{Char}
use Prim.Native.String.{[] as nil, ◌∷◌ as cons}
use vcse.Prelude.{
  Bool, true, false, not, ◌&&◌, ◌||◌, ◌==◌, string_eq, nat_eq, String, Option, none, some, List, [],
  ◌∷◌, length, if◌then◌else◌,
}
use vcse.Number.{Number, lt, equal}
use vcse.Text.Norm.{strip}
use vcse.Text.Parts.{split_on, join_with, starts_with, drop_chars}
use vcse.Memory.Keys.{concat}
use vcse.Packs.Registry.{PackError}

-- The result of a check, or what it raises: a PackError, or the ValueError of `int(text)`
pub data Checked (A : Type 0) : Type 0 where
  value : A → Checked A
  pack_error : PackError → Checked A
  value_error : Checked A

abbrev pub and_then : {A B : Type 0} → Checked A → (A → Checked B) → Checked B
and_then (value a) f = f a
and_then (pack_error e) f = pack_error e
and_then value_error f = value_error

abbrev int_or_raise : Option Number → Checked Number
int_or_raise none = value_error
int_or_raise (some n) = value n

module _ (int_of : String → Option Number) (is_digit : Char → Bool) where
  unfoldable pub semver_of : (version : String) → List String → Checked (Number × Number × Number)
  semver_of version (a ∷ b ∷ c ∷ []) = and_then (int_or_raise (int_of a)) (λ major.
      and_then (int_or_raise (int_of b))
        (λ minor. and_then (int_or_raise (int_of c)) (λ patch. value (major, minor, patch))))
  semver_of version _ = pack_error (record {
    error_type = "INVALID_VERSION";
    reason = concat ("invalid semver: " ∷ version ∷ []);
  })

  -- `_semver`
  unfoldable pub semver : String → Checked (Number × Number × Number)
  unfolding semver_of
  semver version = semver_of version (split_on "." version)

  -- The order of tuples
  unfoldable pub semver_lt : Number × Number × Number → Number × Number × Number → Bool
  semver_lt (a, b, c) (x, y, z) = lt a x || (equal a x && (lt b y || (equal b y && lt c z)))

  unfoldable pub semver_equal : Number × Number × Number → Number × Number × Number → Bool
  semver_equal (a, b, c) (x, y, z) = equal a x && equal b y && equal c z

  abbrev starts_with_digit : String → Bool
  starts_with_digit nil = false
  starts_with_digit (cons c s) = is_digit c

  -- A requirement of one part, with the version that is read
  unfoldable pub satisfies_one :
      (version : Number × Number × Number) → (requirement : String) → Checked Bool
  unfolding semver semver_lt semver_equal
  satisfies_one v requirement =
      if starts_with ">=" requirement
      then and_then (semver (drop_chars 2 requirement)) (λ r. value (not (semver_lt v r)))
      else if starts_with "<" requirement
      then and_then (semver (drop_chars 1 requirement)) (λ r. value (semver_lt v r))
      else if starts_with "==" requirement
      then and_then (semver (drop_chars 2 requirement)) (λ r. value (semver_equal v r))
      else if starts_with "=" requirement
      then and_then (semver (drop_chars 1 requirement)) (λ r. value (semver_equal v r))
      else if length (split_on "." requirement) == 3 && starts_with_digit requirement
      then and_then (semver requirement) (λ r. value (semver_equal v r))
      else pack_error (record {
        error_type = "UNSUPPORTED_DEPENDENCY_SYNTAX";
        reason = concat ("unsupported dependency requirement: " ∷ requirement ∷ []);
      })

  -- `left and right`, where the right side is computed only if the left one holds
  abbrev both : Checked Bool → Checked Bool → Checked Bool
  both (value true) right = right
  both left right = left

  -- `_version_satisfies` on the parts of a requirement between its commas. A ">=" at the start takes
  -- the first part for itself; any other requirement is read as a whole.
  unfoldable pub satisfies_parts : (version : String) → List String → Checked Bool
  unfolding semver satisfies_one
  satisfies_parts version [] = value true
  satisfies_parts version (p ∷ []) =
      if strip p == ""
      then value true
      else and_then (semver version) (λ v. satisfies_one v (strip p))
  satisfies_parts version (p ∷ q ∷ rest) =
      let requirement = strip (join_with "," (p ∷ q ∷ rest)) in
      let right = satisfies_parts version (q ∷ rest) in
      and_then (semver version) (λ v.
        if starts_with ">=" requirement
        then both (satisfies_one v (strip p)) right
        else satisfies_one v requirement)

  unfoldable pub version_satisfies : (version requirement : String) → Checked Bool
  unfolding satisfies_parts
  version_satisfies version requirement =
      if requirement == "" then value true else satisfies_parts version (split_on "," requirement)
