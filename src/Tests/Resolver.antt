-- ===== src/Tests/Resolver.antt =====
-- src/vcse/packs/resolver.py on two packs, one of which depends on the other.
use Prim.Native.Char.{Char}
use vcse.Prelude.{
  ◌≡◌, refl, Bool, true, String, Option, none, some, List, [], ◌∷◌, ◌==◌, string_eq, if◌then◌else◌,
  map,
}
use vcse.Number.{Number, finite}
use vcse.Packs.Registry.{Dependency, InstalledPackRecord, Registry}
use vcse.Packs.Resolver.{ResolvedPack, Walked, walked, failed, error, resolve}
use vcse.Packs.Resolver.Total.{IsResolution, resolve-IsResolution}

-- Enough for the versions below
abbrev small_int : String → Option Number
small_int s =
    if s == "0"
    then some (finite 0 0 0)
    else if s == "1"
    then some (finite 1 0 0)
    else if s == "2"
    then some (finite 2 0 0)
    else none

abbrev any_digit : Char → Bool
any_digit c = true

abbrev installed : String → String → List Dependency → InstalledPackRecord
installed id version deps = record {
  id = id;
  version = version;
  name = id;
  domain = "general";
  install_path = "/packs";
  source_path = "/src";
  installed_at = "2026-01-01";
  validation_passed = true;
  dependencies = deps;
}

abbrev base_pack : InstalledPackRecord
base_pack = installed "base" "1.2.0" []

abbrev logic_pack : InstalledPackRecord
logic_pack = installed "logic" "1.0.0" (record { id = "base"; version = ">=1.0.0,<2.0.0" } ∷ [])

abbrev loop_pack : InstalledPackRecord
loop_pack = installed "loop" "1.0.0" (record { id = "loop"; version = "" } ∷ [])

abbrev packs : Registry
packs = base_pack ∷ logic_pack ∷ loop_pack ∷ []

-- The packs that are listed, in order
abbrev listed : Walked → List String
listed (walked w) = map (λ (p : ResolvedPack). p.id) w.ordered
listed _ = []

resolve_two : listed (resolve small_int any_digit packs ("logic" ∷ [])) ≡ "base" ∷ "logic" ∷ []
unfolding resolve vcse.Dict.get vcse.Prelude.contains vcse.Prelude.filterb
    vcse.Text.Parts.split_once vcse.Text.Norm.strip vcse.Text.Norm.is_space vcse.Text.Parts.split_on
    vcse.Text.Parts.starts_with vcse.Text.Parts.join_with vcse.Text.Parts.drop_chars vcse.Number.lt
    vcse.Number.equal
resolve_two = refl

resolve_loop :
    resolve small_int any_digit packs ("loop" ∷ [])
    ≡ failed (error "CIRCULAR_DEPENDENCY" "circular dependency detected at loop@1.0.0")
unfolding resolve vcse.Dict.get vcse.Prelude.contains vcse.Prelude.filterb
    vcse.Text.Parts.split_once vcse.Text.Norm.strip vcse.Text.Norm.is_space
resolve_loop = refl

resolve-IsResolution_example :
    IsResolution small_int any_digit packs
      ("logic" ∷ [])
      (resolve small_int any_digit packs ("logic" ∷ []))
resolve-IsResolution_example = resolve-IsResolution small_int any_digit packs ("logic" ∷ [])
