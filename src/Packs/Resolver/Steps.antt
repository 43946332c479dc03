-- ===== src/Packs/Resolver/Steps.antt =====
-- What a visit of src/vcse/packs/resolver.py that returns went through, step by step.
use Prim.Native.Char.{Char}
use vcse.Prelude.{
  ◌≡◌, refl, Bool, true, false, ◌==◌, string_eq, String, Option, none, some, [], ◌∷◌, ◌++◌, if_both,
}
use vcse.Number.{Number}
use vcse.Dict.{set}
use vcse.Text.Norm.{strip}
use vcse.Packs.Registry.{Dependency, InstalledPackRecord, Registry, find}
use vcse.Packs.Version.{Checked, value, pack_error, value_error, version_satisfies}
use vcse.Packs.Resolver.{
  ResolvedPack, Walk, Walked, walked, failed, bad_number, out_of_fuel, resolved_of, mark, and_walk,
  visit_met, visit_found, visit_dependency, visit_dependencies, visit_record,
}

-- What a walk that goes on went through
pub and_walk_walked :
    (a : Walked) (f : Walk → Walked) (w' : Walk)
    → and_walk a f ≡ walked w'
    → (w : Walk) × (a ≡ walked w) × (f w ≡ walked w')
and_walk_walked (walked w) f w' h = (w, refl, h)
and_walk_walked (failed e) f w' h = cc
and_walk_walked bad_number f w' h = cc
and_walk_walked out_of_fuel f w' h = cc

pub walk_eq : {v w : Walk} → walked v ≡ walked w → v ≡ w
walk_eq h = cc

pub mark_walked :
    (key : String) (p : ResolvedPack) (a : Walked) (w' : Walk)
    → mark key p a ≡ walked w'
    → (w : Walk) × (a ≡ walked w)
      × (record { seen = set w.seen key p; ordered = w.ordered ++ p ∷ [] } ≡ w')
unfolding mark
mark_walked key p (walked w) w' h = (w, refl, cc)
mark_walked key p (failed e) w' h = cc
mark_walked key p bad_number w' h = cc
mark_walked key p out_of_fuel w' h = cc

module _ (int_of : String → Option Number) (is_digit : Char → Bool) (registry : Registry) where
  met_walked :
      (f : String → Option String → Walk → Walked) (p : ResolvedPack) (d s : String)
      (r : InstalledPackRecord) (c : Checked Bool) (w w' : Walk)
      → visit_met int_of is_digit registry f p d s r c w ≡ walked w'
      → (c ≡ value true) × (f d (some r.version) w ≡ walked w')
  unfolding visit_met
  met_walked f p d s r (value true) w w' h = (refl, h)
  met_walked f p d s r (value false) w w' h = cc
  met_walked f p d s r (pack_error e) w w' h = cc
  met_walked f p d s r value_error w w' h = cc

  -- What a round for the dependency `d` with the requirement `s` goes through
  pub record IsRound (f : String → Option String → Walk → Walked) (d s : String)
      (o : Option InstalledPackRecord) (w w' : Walk) : Type 0 where
    pub found : InstalledPackRecord
    pub is_there : o ≡ some found
    pub fits : version_satisfies int_of is_digit found.version s ≡ value true
    pub visited : f d (some found.version) w ≡ walked w'

  found-IsRound :
      (f : String → Option String → Walk → Walked) (p : ResolvedPack) (d s : String)
      (o : Option InstalledPackRecord) (w w' : Walk)
      → visit_found int_of is_digit registry f p d s o w ≡ walked w'
      → IsRound f d s o w w'
  unfolding visit_found
  found-IsRound f p d s none w w' h = cc
  found-IsRound f p d s (some r) w w' h =
      let (c, v) = met_walked f p d s r (version_satisfies int_of is_digit r.version s) w w' h in
      record { found = r; is_there = refl; fits = c; visited = v }

  pub dependency-IsRound :
      (f : String → Option String → Walk → Walked) (p : ResolvedPack) (dep : Dependency)
      (w w' : Walk)
      → visit_dependency int_of is_digit registry f p dep w ≡ walked w'
      → IsRound f (strip dep.id) (strip dep.version) (find registry (strip dep.id) none) w w'
  unfolding visit_dependency
  dependency-IsRound f p dep w w' =
      let d = strip dep.id in
      let o = find registry d none in
      if_both (λ q. q ≡ walked w' → IsRound f d (strip dep.version) o w w') (d == "") _ _
        (λ _ h. cc) (λ _ h. found-IsRound f p d (strip dep.version) o w w' h)

  pub record_found :
      (f : String → Option String → Walk → Walked) (key : String) (o : Option InstalledPackRecord)
      (w w' : Walk)
      → visit_record int_of is_digit registry f key o w ≡ walked w'
      → (r : InstalledPackRecord) × (o ≡ some r)
        × (mark key (resolved_of r) (
              visit_dependencies int_of is_digit registry f
                (resolved_of r)
                (resolved_of r).dependencies
                w)
            ≡ walked w')
  unfolding visit_record
  record_found f key none w w' h = cc
  record_found f key (some r) w w' h = (r, refl, h)
