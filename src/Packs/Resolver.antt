-- ===== src/Packs/Resolver.antt =====
-- `DependencyResolver` of src/vcse/packs/resolver.py over a registry. The set `visiting` is passed
-- down: a visit that returns leaves it as it found it, and an error ends the whole resolution.
mod Steps
pub mod Order
mod Installed
pub mod Total
use Prim.Native.Char.{Char}
use vcse.Prelude.{
  ℕ, zero, suc, ◌+◌, Bool, true, false, ◌==◌, string_eq, String, Option, none, some, List, [], ◌∷◌,
  ◌++◌, contains, length, map, if◌then◌else◌,
}
use vcse.Number.{Number}
use vcse.Dict.{Dict, get, set, has}
use vcse.Text.Norm.{strip}
use vcse.Text.Parts.{split_once}
use vcse.Memory.Keys.{concat}
use vcse.Packs.Registry.{PackError, Dependency, InstalledPackRecord, Registry, find}
use vcse.Packs.Version.{Checked, value, pack_error, value_error, version_satisfies}

pub record ResolvedPack : Type 0 where
  pub id : String
  pub version : String
  pub install_path : String
  pub dependencies : List Dependency

-- `seen` and `ordered`
pub record Walk : Type 0 where
  pub seen : Dict String ResolvedPack
  pub ordered : List ResolvedPack

pub data Walked : Type 0 where
  walked : Walk → Walked
  failed : PackError → Walked
  -- the ValueError of `int(text)`
  bad_number : Walked
  out_of_fuel : Walked

-- f"{pack_id}@{version or '*'}"
unfoldable pub key_of : (pack_id : String) → (version : Option String) → String
key_of pack_id none = concat (pack_id ∷ "@" ∷ "*" ∷ [])
key_of pack_id (some version) =
    concat (pack_id ∷ "@" ∷ (if version == "" then "*" else version) ∷ [])

unfoldable pub resolved_of : InstalledPackRecord → ResolvedPack
resolved_of r = record {
  id = r.id;
  version = r.version;
  install_path = r.install_path;
  dependencies = r.dependencies;
}

abbrev pub error : (error_type reason : String) → PackError
error t r = record { error_type = t; reason = r }

-- The end of a visit
unfoldable pub mark : (key : String) → ResolvedPack → Walked → Walked
mark key p (walked w) = walked (record { seen = set w.seen key p; ordered = w.ordered ++ p ∷ [] })
mark key p other = other

-- The next step, where the walk goes on
abbrev pub and_walk : Walked → (Walk → Walked) → Walked
and_walk (walked w) f = f w
and_walk (failed e) f = failed e
and_walk bad_number f = bad_number
and_walk out_of_fuel f = out_of_fuel

-- `parse_pack_spec`
unfoldable pub parse_pack_spec : String → String × Option String
parse_pack_spec spec = elim (split_once "@" (strip spec)) [
  | none ↦ (strip spec, none)
  | some (a, b) ↦ (strip a, some (strip b))
]

module _ (int_of : String → Option Number) (is_digit : Char → Bool) (registry : Registry) where
  -- A dependency whose record is found, with the result of the check of its version
  unfoldable pub visit_met :
      (visit : String → Option String → Walk → Walked)
      → ResolvedPack
      → (dep_id spec : String) → InstalledPackRecord
      → Checked Bool
      → Walk
      → Walked
  visit_met visit p dep_id spec r (value true) w = visit dep_id (some r.version) w
  visit_met visit p dep_id spec r (value false) w = failed (
      error "INCOMPATIBLE_DEPENDENCY"
        (concat (p.id ∷ "@" ∷ p.version ∷ " requires " ∷ dep_id ∷ " " ∷ spec ∷ [])))
  visit_met visit p dep_id spec r (pack_error e) w = failed e
  visit_met visit p dep_id spec r value_error w = bad_number

  unfoldable pub visit_found :
      (visit : String → Option String → Walk → Walked)
      → ResolvedPack
      → (dep_id spec : String) → Option InstalledPackRecord
      → Walk
      → Walked
  unfolding visit_met version_satisfies
  visit_found visit p dep_id spec none w =
      failed (error "MISSING_DEPENDENCY" (concat ("missing dependency: " ∷ dep_id ∷ [])))
  visit_found visit p dep_id spec (some r) w =
      visit_met visit p dep_id spec r (version_satisfies int_of is_digit r.version spec) w

  -- One round of the loop over the dependencies
  unfoldable pub visit_dependency :
      (visit : String → Option String → Walk → Walked) → ResolvedPack → Dependency → Walk → Walked
  unfolding visit_found find
  visit_dependency visit p dep w =
      if strip dep.id == ""
      then failed (
          error "INVALID_DEPENDENCY"
            (concat ("dependency missing id in " ∷ p.id ∷ "@" ∷ p.version ∷ [])))
      else visit_found visit p (strip dep.id) (strip dep.version)
          (find registry (strip dep.id) none) w

  -- The loop over the dependencies
  unfoldable pub visit_dependencies :
      (visit : String → Option String → Walk → Walked)
      → ResolvedPack
      → List Dependency
      → Walk
      → Walked
  unfolding visit_dependency
  visit_dependencies visit p [] w = walked w
  visit_dependencies visit p (dep ∷ deps) w =
      and_walk (visit_dependency visit p dep w) (visit_dependencies visit p deps)

  -- `_visit` from the record on
  unfoldable pub visit_record :
      (visit : String → Option String → Walk → Walked)
      → (key : String) → Option InstalledPackRecord
      → Walk
      → Walked
  unfolding visit_dependencies mark resolved_of
  visit_record visit key none w =
      failed (error "MISSING_DEPENDENCY" (concat ("missing dependency: " ∷ key ∷ [])))
  visit_record visit key (some r) w =
      mark key (resolved_of r) (visit_dependencies visit (resolved_of r) r.dependencies w)

  -- `_visit`
  unfoldable pub visit :
      (fuel : ℕ)
      → (visiting : List String) → (pack_id : String) (version : Option String) → Walk
      → Walked
  unfolding key_of visit_record
  visit zero visiting pack_id version w = out_of_fuel
  visit (suc fuel) visiting pack_id version w =
      let key = key_of pack_id version in
      if has w.seen key
      then walked w
      else if contains key visiting
      then failed
          (error "CIRCULAR_DEPENDENCY" (concat ("circular dependency detected at " ∷ key ∷ [])))
      else visit_record (visit fuel (key ∷ visiting)) key (find registry pack_id version) w

  -- The loop of `resolve`. Fuel: a visit for each record, for the request, and for the last key
  unfoldable pub visit_requests : List (String × Option String) → Walk → Walked
  unfolding visit
  visit_requests [] w = walked w
  visit_requests ((pack_id, version) ∷ more) w =
      and_walk (visit (length registry + 2) [] pack_id version w) (visit_requests more)

  -- `resolve`, from a walk that has seen nothing
  unfoldable pub resolve : (requested : List String) → Walked
  unfolding visit_requests parse_pack_spec
  resolve requested =
      visit_requests (map parse_pack_spec requested) (record { seen = []; ordered = [] })
