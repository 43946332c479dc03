-- ===== src/Packs/Resolver/Order.antt =====
-- The order in which src/vcse/packs/resolver.py lists the packs: after all that they depend on.
use Prim.Native.Char.{Char}
use vcse.Prelude.{
  ℕ, zero, suc, ◌+◌, ◌≡◌, refl, sym, ap, subst, Bool, true, string_eq, String, Option, none, some,
  List, [], ◌∷◌, ◌++◌, All, Member, Member-append, Member-last, Option-cases, inl, inr, contains,
  length, map, if_both, is_some,
}
use vcse.Number.{Number}
use vcse.Dict.{get, has}
use vcse.Dict.Laws.{get-set_cases}
use vcse.Text.Norm.{strip}
use vcse.Packs.Registry.{Dependency, InstalledPackRecord, Registry, find}
use vcse.Packs.Version.{value, version_satisfies}
use vcse.Packs.Resolver.{
  ResolvedPack, Walk, Walked, walked, key_of, resolved_of, mark, visit_dependency,
  visit_dependencies, visit, visit_requests, parse_pack_spec, resolve,
}
use vcse.Packs.Resolver.Steps.{
  and_walk_walked, walk_eq, mark_walked, dependency-IsRound, record_found,
}

module _ (int_of : String → Option Number) (is_digit : Char → Bool) (registry : Registry) where
  -- The pack is the one that the registry has under an id and a version with this key.
  pub record IsFound (key : String) (p : ResolvedPack) : Type 0 where
    pub pack_id : String
    pub version : Option String
    pub installed : InstalledPackRecord
    pub is_found : find registry pack_id version ≡ some installed
    pub has_key : key_of pack_id version ≡ key
    pub is_resolved : resolved_of installed ≡ p

  -- The version that the registry has fits, and the pack with its key is among `ps`.
  pub record IsMet (ps : List ResolvedPack) (dep : Dependency) : Type 0 where
    pub found : InstalledPackRecord
    pub is_there : find registry (strip dep.id) none ≡ some found
    pub fits : version_satisfies int_of is_digit found.version (strip dep.version) ≡ value true
    pub pack : ResolvedPack
    pub is_before : Member pack ps
    pub by_key : IsFound (key_of (strip dep.id) (some found.version)) pack

  -- Each pack stands behind the packs that meet its dependencies.
  pub data LoadOrder : List ResolvedPack → Type 0 where
    nothing : LoadOrder []
    loaded :
        (ps : List ResolvedPack) (p : ResolvedPack)
        → LoadOrder ps
        → All (IsMet ps) p.dependencies
        → LoadOrder (ps ++ p ∷ [])

  -- A pack with the key is listed.
  abbrev pub IsListed : List ResolvedPack → String → Type 0
  IsListed ps key = (q : ResolvedPack) × Member q ps × IsFound key q

  record IsGood (w : Walk) : Type 0 where
    order : LoadOrder w.ordered
    listed :
        (key : String) (q : ResolvedPack)
        → get w.seen key ≡ some q
        → Member q w.ordered × IsFound key q

  abbrev Grows : Walk → Walk → Type 0
  Grows w w' = (q : ResolvedPack) → Member q w.ordered → Member q w'.ordered

  -- What a visit that returns keeps and adds
  abbrev IsVisit : (String → Option String → Walk → Walked) → Type 0
  IsVisit f =
      (i : String) (v : Option String) (w w' : Walk)
      → IsGood w
      → f i v w ≡ walked w'
      → IsGood w' × Grows w w' × IsListed w'.ordered (key_of i v)

  IsMet-Grows :
      (w w' : Walk) (deps : List Dependency)
      → Grows w w'
      → All (IsMet w.ordered) deps
      → All (IsMet w'.ordered) deps
  IsMet-Grows w w' [] g h = tt
  IsMet-Grows w w' (dep ∷ deps) g (m, h) = (
    record {
      found = m.found;
      is_there = m.is_there;
      fits = m.fits;
      pack = m.pack;
      is_before = g m.pack m.is_before;
      by_key = m.by_key;
    },
    IsMet-Grows w w' deps g h,
  )

  module _ (f : String → Option String → Walk → Walked) (is_visit : IsVisit f)
      (p : ResolvedPack) where
    dependencies_walked :
        (deps : List Dependency) (w w' : Walk)
        → IsGood w
        → visit_dependencies int_of is_digit registry f p deps w ≡ walked w'
        → IsGood w' × Grows w w' × All (IsMet w'.ordered) deps
    unfolding visit_dependencies
    dependencies_walked [] w w' good h =
        subst (λ u. IsGood u × Grows w u × Unit) (walk_eq h) (good, λ q m. m, tt)
    dependencies_walked (dep ∷ deps) w w' good h =
        let (u, at, rest) =
          and_walk_walked (visit_dependency int_of is_digit registry f p dep w)
            (visit_dependencies int_of is_digit registry f p deps) w' h in
        let r = dependency-IsRound int_of is_digit registry f p dep w u at in
        let (good', g, (q, m, k)) =
          is_visit (strip dep.id) (some r.found.version) w u good r.visited in
        let (good'', g', met) = dependencies_walked deps u w' good' rest in
        (
          good'',
          λ x n. g' x (g x n),
          (
            record {
              found = r.found;
              is_there = r.is_there;
              fits = r.fits;
              pack = q;
              is_before = g' q m;
              by_key = k;
            },
            met,
          ),
        )

    record_walked :
        (key : String) (i : String) (v : Option String)
        → key_of i v ≡ key
        → (r : InstalledPackRecord) → find registry i v ≡ some r
        → p ≡ resolved_of r
        → (w w' : Walk) → IsGood w
        → mark key p (visit_dependencies int_of is_digit registry f p p.dependencies w) ≡ walked w'
        → IsGood w' × Grows w w' × IsListed w'.ordered key
    record_walked key i v named r found same w w' good h =
        let (u, at, e) =
          mark_walked key p (visit_dependencies int_of is_digit registry f p p.dependencies w) w'
            h in
        let (good', g, met) = dependencies_walked p.dependencies w u good at in
        let new : IsFound key p = record {
          pack_id = i;
          version = v;
          installed = r;
          is_found = found;
          has_key = named;
          is_resolved = sym same;
        } in
        subst (λ x. IsGood x × Grows w x × IsListed x.ordered key) e
          (
            record {
              order = loaded u.ordered p good'.order met;
              listed = λ k q m. elim (get-set_cases u.seen key k p q m) [
                | inl (at_key, is_p) ↦
                    subst (λ x. Member x (u.ordered ++ p ∷ []) × IsFound k x) is_p
                      (Member-last p u.ordered, subst (λ x. IsFound x p) at_key new)
                | inr (other, old) ↦
                    let (n, is_found) = good'.listed k q old in
                    (Member-append q u.ordered (p ∷ []) n, is_found)
              ];
            },
            λ q m. Member-append q u.ordered (p ∷ []) (g q m),
            (p, Member-last p u.ordered, new),
          )

  seen-IsListed :
      (w : Walk) (key : String) → IsGood w → has w.seen key ≡ true → IsListed w.ordered key
  seen-IsListed w key good h = elim (Option-cases (get w.seen key)) [
    | inl absent ↦ cc (ap is_some absent, h)
    | inr (q, at) ↦ let (m, k) = good.listed key q at in (q, m, k)
  ]

  visit-IsVisit :
      (fuel : ℕ) (visiting : List String) → IsVisit (visit int_of is_digit registry fuel visiting)
  unfolding visit
  visit-IsVisit zero visiting i v w w' good = λ h. cc
  visit-IsVisit (suc fuel) visiting i v w w' good =
      let key = key_of i v in
      let f = visit int_of is_digit registry fuel (key ∷ visiting) in
      let P : Walked → Type 0 =
        λ q. q ≡ walked w' → IsGood w' × Grows w w' × IsListed w'.ordered key in
      if_both P (has w.seen key) _ _
        (λ known h.
          subst (λ u. IsGood u × Grows w u × IsListed u.ordered key) (walk_eq h)
            (good, λ q m. m, seen-IsListed w key good known))
        (λ _.
          if_both P (contains key visiting) _ _ (λ _ h. cc)
            (λ _ h.
              let (r, found, marked) =
                record_found int_of is_digit registry f key (find registry i v) w w' h in
              record_walked f (visit-IsVisit fuel (key ∷ visiting)) (resolved_of r) key i v refl r
                found refl w w' good marked))

  requests_walked :
      (requests : List (String × Option String)) (w w' : Walk)
      → IsGood w
      → visit_requests int_of is_digit registry requests w ≡ walked w'
      → IsGood w'
        × Grows w w'
        × All (λ request. IsListed w'.ordered (key_of request.0 request.1)) requests
  unfolding visit_requests
  requests_walked [] w w' good h =
      subst (λ u. IsGood u × Grows w u × Unit) (walk_eq h) (good, λ q m. m, tt)
  requests_walked ((i, v) ∷ more) w w' good h =
      let fuel = length registry + 2 in
      let (u, at, rest) =
        and_walk_walked (visit int_of is_digit registry fuel [] i v w)
          (visit_requests int_of is_digit registry more) w' h in
      let (good', g, (q, m, k)) = visit-IsVisit fuel [] i v w u good at in
      let (good'', g', all) = requests_walked more u w' good' rest in
      (good'', λ x n. g' x (g x n), ((q, g' q m, k), all))

  pub resolve_walked :
      (requested : List String) (w : Walk)
      → resolve int_of is_digit registry requested ≡ walked w
      → LoadOrder w.ordered
        × All
            (λ request. IsListed w.ordered (key_of request.0 request.1))
            (map parse_pack_spec requested)
  unfolding resolve get
  resolve_walked requested w h =
      let start : Walk = record { seen = []; ordered = [] } in
      let (good, g, all) = requests_walked (map parse_pack_spec requested) start w start-IsGood h in
      (good.order, all)
    where
      start-IsGood : IsGood (record { seen = []; ordered = [] })
      start-IsGood = record { order = nothing; listed = λ k q m. cc }
