-- ===== src/Packs/Resolver/Total.antt =====
-- The resolution of src/vcse/packs/resolver.py ends: each visit that goes on has a key that no visit
-- around it has, and below the request it is the key of an installed pack.
use Prim.Native.Char.{Char}
use vcse.Prelude.{
  ℕ, zero, suc, ◌+◌, ◌≤◌, ◌<◌, ◌≡◌, ◌≢◌, refl, subst, Bool, true, false, ◌==◌, string_eq, String,
  Option, none, some, List, [], ◌∷◌, All, Member, contains, length, map, if_both, arith,
}
use vcse.Number.{Number}
use vcse.Dict.{has}
use vcse.Text.Norm.{strip}
use vcse.Packs.Registry.{Dependency, InstalledPackRecord, Registry, find}
use vcse.Packs.Version.{Checked, value, pack_error, value_error, version_satisfies}
use vcse.Packs.Resolver.{
  ResolvedPack, Walk, Walked, walked, failed, bad_number, out_of_fuel, key_of, resolved_of, mark,
  and_walk, visit_met, visit_found, visit_dependency, visit_dependencies, visit_record, visit,
  visit_requests, parse_pack_spec, resolve,
}
use vcse.Packs.Resolver.Order.{LoadOrder, IsListed, resolve_walked}
use vcse.Packs.Resolver.Installed.{open_keys, open_keys-le, open_keys-drop, find-Member}

abbrev IsEnded : Walked → Type 0
IsEnded a = a ≢ out_of_fuel

and_walk-IsEnded :
    (a : Walked) (f : Walk → Walked)
    → IsEnded a
    → ((w : Walk) → IsEnded (f w))
    → IsEnded (and_walk a f)
and_walk-IsEnded (walked w) f h k = k w
and_walk-IsEnded (failed e) f h k = λ q. cc
and_walk-IsEnded bad_number f h k = λ q. cc
and_walk-IsEnded out_of_fuel f h k = h

mark-IsEnded : (key : String) (p : ResolvedPack) (a : Walked) → IsEnded a → IsEnded (mark key p a)
unfolding mark
mark-IsEnded key p (walked w) h = λ q. cc
mark-IsEnded key p (failed e) h = λ q. cc
mark-IsEnded key p bad_number h = λ q. cc
mark-IsEnded key p out_of_fuel h = h

module _ (int_of : String → Option Number) (is_digit : Char → Bool) (registry : Registry) where
  module _ (f : String → Option String → Walk → Walked)
      (ends : (d : String) (r : InstalledPackRecord) (w : Walk)
        → find registry d none ≡ some r
        → IsEnded (f d (some r.version) w))
      (p : ResolvedPack) where
    met-IsEnded :
        (d s : String) (r : InstalledPackRecord) (c : Checked Bool) (w : Walk)
        → find registry d none ≡ some r
        → IsEnded (visit_met int_of is_digit registry f p d s r c w)
    unfolding visit_met
    met-IsEnded d s r (value true) w at = ends d r w at
    met-IsEnded d s r (value false) w at = λ q. cc
    met-IsEnded d s r (pack_error e) w at = λ q. cc
    met-IsEnded d s r value_error w at = λ q. cc

    found-IsEnded :
        (d s : String) (o : Option InstalledPackRecord) (w : Walk)
        → find registry d none ≡ o
        → IsEnded (visit_found int_of is_digit registry f p d s o w)
    unfolding visit_found
    found-IsEnded d s none w at = λ q. cc
    found-IsEnded d s (some r) w at =
        met-IsEnded d s r (version_satisfies int_of is_digit r.version s) w at

    dependencies-IsEnded :
        (deps : List Dependency) (w : Walk)
        → IsEnded (visit_dependencies int_of is_digit registry f p deps w)
    unfolding visit_dependencies visit_dependency
    dependencies-IsEnded [] w = λ q. cc
    dependencies-IsEnded (dep ∷ deps) w =
        and_walk-IsEnded (visit_dependency int_of is_digit registry f p dep w)
          (visit_dependencies int_of is_digit registry f p deps)
          (if_both IsEnded (strip dep.id == "") _ _ (λ _ q. cc)
            (λ _. found-IsEnded (strip dep.id) (strip dep.version) _ w refl))
          (λ u. dependencies-IsEnded deps u)

  -- The fuel suffices for a visit with this key inside of those with the keys `visiting`.
  record IsEnough (fuel : ℕ) (visiting : List String) (key : String) : Type 0 where
    some_left : 1 ≤ fuel
    for_new : contains key visiting ≡ false → open_keys (key ∷ visiting) registry + 2 ≤ fuel

  record-IsEnded :
      (f : String → Option String → Walk → Walked)
      → ((d : String) (r : InstalledPackRecord) (w : Walk)
          → find registry d none ≡ some r
          → IsEnded (f d (some r.version) w))
      → (key : String) (o : Option InstalledPackRecord) (w : Walk)
      → IsEnded (visit_record int_of is_digit registry f key o w)
  unfolding visit_record
  record-IsEnded f ends key none w = λ q. cc
  record-IsEnded f ends key (some r) w =
      mark-IsEnded key (resolved_of r)
        (visit_dependencies int_of is_digit registry f (resolved_of r) r.dependencies w)
        (dependencies-IsEnded f ends (resolved_of r) r.dependencies w)

  installed_drop :
      (d : String) (r : InstalledPackRecord) (visiting : List String)
      → Member r registry
      → r.id ≡ d
      → contains (key_of d (some r.version)) visiting ≡ false
      → open_keys (key_of d (some r.version) ∷ visiting) registry < open_keys visiting registry
  installed_drop d r visiting m e =
      subst
        (λ x.
          contains (key_of x (some r.version)) visiting ≡ false
          → open_keys (key_of x (some r.version) ∷ visiting) registry < open_keys visiting registry)
        e (open_keys-drop r visiting registry m)

  visit-IsEnded :
      (fuel : ℕ) (visiting : List String) (i : String) (v : Option String) (w : Walk)
      → IsEnough fuel visiting (key_of i v)
      → IsEnded (visit int_of is_digit registry fuel visiting i v w)
  unfolding visit
  visit-IsEnded zero visiting i v w enough = absurd (omega (arith, enough.some_left))
  visit-IsEnded (suc fuel) visiting i v w enough =
      let key = key_of i v in
      let f = visit int_of is_digit registry fuel (key ∷ visiting) in
      if_both IsEnded (has w.seen key) _ _ (λ _ q. cc)
        (λ _.
          if_both IsEnded (contains key visiting) _ _ (λ _ q. cc)
            (λ new.
              record-IsEnded f
                (λ d r u at.
                  visit-IsEnded fuel (key ∷ visiting) d (some r.version) u
                    (nested key new (enough.for_new new) d r at))
                key (find registry i v) w))
    where
      nested :
          (key : String)
          → contains key visiting ≡ false
          → open_keys (key ∷ visiting) registry + 2 ≤ suc fuel
          → (d : String) (r : InstalledPackRecord) → find registry d none ≡ some r
          → IsEnough fuel (key ∷ visiting) (key_of d (some r.version))
      nested key new left d r at =
          let (m, e) = find-Member registry d none r at in
          record {
            some_left = omega (arith, left);
            for_new = λ fresh. omega (arith, left, installed_drop d r (key ∷ visiting) m e fresh);
          }

  requests-IsEnded :
      (requests : List (String × Option String)) (w : Walk)
      → IsEnded (visit_requests int_of is_digit registry requests w)
  unfolding visit_requests
  requests-IsEnded [] w = λ q. cc
  requests-IsEnded ((i, v) ∷ more) w =
      and_walk-IsEnded (visit int_of is_digit registry (length registry + 2) [] i v w)
        (visit_requests int_of is_digit registry more)
        (visit-IsEnded (length registry + 2) [] i v w (record {
          some_left = omega arith;
          for_new = λ _. omega (arith, open_keys-le (key_of i v ∷ []) registry);
        }))
        (λ u. requests-IsEnded more u)

  -- The result is an error, or a load order with a pack for each request.
  abbrev pub IsResolution : List String → Walked → Type 0
  IsResolution requested (walked w) =
      LoadOrder int_of is_digit registry w.ordered
      × All (λ request. IsListed int_of is_digit registry w.ordered (key_of request.0 request.1))
          (map parse_pack_spec requested)
  IsResolution requested (failed e) = Unit
  IsResolution requested bad_number = Unit
  IsResolution requested out_of_fuel = ⊥

  -- The resolution of dependencies ends, whatever the registry holds, cycles included: with an
  -- error, or with an order that has a pack for the key of each request, and in which, for each
  -- dependency of a pack, the version that the registry has satisfies what is asked for and a pack
  -- with its key stands before.
  pub resolve-IsResolution :
      (requested : List String)
      → IsResolution requested (resolve int_of is_digit registry requested)
  unfolding resolve
  resolve-IsResolution requested =
      by_result (resolve int_of is_digit registry requested)
        (λ w h. resolve_walked int_of is_digit registry requested w h) ended
    where
      ended : IsEnded (resolve int_of is_digit registry requested)
      ended = requests-IsEnded (map parse_pack_spec requested) _

      by_result :
          (a : Walked)
          → ((w : Walk)
              → a ≡ walked w
              → LoadOrder int_of is_digit registry w.ordered
                × All
                    (λ request.
                      IsListed int_of is_digit registry w.ordered (key_of request.0 request.1))
                    (map parse_pack_spec requested))
          → IsEnded a
          → IsResolution requested a
      by_result (walked w) h k = h w refl
      by_result (failed e) h k = tt
      by_result bad_number h k = tt
      by_result out_of_fuel h k = absurd (k refl)
