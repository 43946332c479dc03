-- ===== src/Packs/Resolver/Installed.antt =====
-- The installed packs whose keys are still open, and where `find` (src/vcse/packs/registry.py) finds
-- a pack.
use vcse.Prelude.{
  ℕ, suc, ◌≤◌, ◌<◌, ◌≡◌, refl, sym, ap, ◌∙◌, subst, Bool, true, false, ◌==◌, string_eq, String,
  Option, none, some, List, [], ◌∷◌, Member, here, there, inl, inr, ◌⊎◌, contains, length, filterb,
  if◌then◌else◌, if_both, arith, beq_refl, some_eq,
}
use vcse.Text.Parts.{str_lt}
use text.Mathlib.TextEquality.{eq_iff}
use vcse.Packs.Registry.{
  InstalledPackRecord, Registry, find, find_among, has_id, highest, first_version,
}
use vcse.Packs.Resolver.{key_of}

-- How many records have a key that is not in `visiting`
unfoldable pub open_keys : List String → Registry → ℕ
open_keys visiting [] = 0
open_keys visiting (r ∷ rs) =
    let rest = open_keys visiting rs in
    if contains (key_of r.id (some r.version)) visiting then rest else suc rest

pub open_keys-le : (visiting : List String) (rs : Registry) → open_keys visiting rs ≤ length rs
unfolding open_keys
open_keys-le visiting [] = omega arith
open_keys-le visiting (r ∷ rs) = ground (arith, open_keys-le visiting rs)

open_keys_mono :
    (k : String) (visiting : List String) (rs : Registry)
    → open_keys (k ∷ visiting) rs ≤ open_keys visiting rs
unfolding open_keys contains
open_keys_mono k visiting [] = omega arith
open_keys_mono k visiting (r ∷ rs) = ground (arith, open_keys_mono k visiting rs)

-- A visit of an installed pack that is not visited leaves fewer.
pub open_keys-drop :
    (r : InstalledPackRecord) (visiting : List String) (rs : Registry)
    → Member r rs
    → contains (key_of r.id (some r.version)) visiting ≡ false
    → open_keys (key_of r.id (some r.version) ∷ visiting) rs < open_keys visiting rs
unfolding open_keys contains
open_keys-drop r visiting [] m new = elim m [ ]
open_keys-drop r visiting (q ∷ rs) (here _ _ e) new =
    subst
      (λ x.
        open_keys (key_of r.id (some r.version) ∷ visiting) (x ∷ rs) < open_keys visiting (x ∷ rs))
      (sym e)
      (ground (
        arith,
        new,
        open_keys_mono (key_of r.id (some r.version)) visiting rs,
        eq_iff (key_of r.id (some r.version)) (key_of r.id (some r.version)),
        beq_refl (key_of r.id (some r.version)),
      ))
open_keys-drop r visiting (q ∷ rs) (there _ _ m) new =
    ground (arith, open_keys-drop r visiting rs m new)

highest-Member :
    (best : InstalledPackRecord) (rs : Registry)
    → (highest best rs ≡ best) ⊎ Member (highest best rs) rs
unfolding highest
highest-Member best [] = inl refl
highest-Member best (r ∷ rs) =
    elim (highest-Member (if str_lt best.version r.version then r else best) rs) [
      | inr m ↦ inr (there r rs m)
      | inl e ↦
          if_both (λ q. (highest q rs ≡ q) → (highest q rs ≡ best) ⊎ Member (highest q rs) (r ∷ rs))
            (str_lt best.version r.version) r best (λ _ k. inr (here r rs (sym k))) (λ _ k. inl k) e
    ]

first_version-Member :
    (v : String) (rs : Registry) (r : InstalledPackRecord)
    → first_version v rs ≡ some r
    → Member r rs
unfolding first_version
first_version-Member v [] r = λ h. cc
first_version-Member v (q ∷ rs) r =
    if_both (λ o. o ≡ some r → Member r (q ∷ rs)) (q.version == v) (some q) (first_version v rs)
      (λ _ h. here q rs (cc)) (λ _ h. there q rs (first_version-Member v rs r h))

filterb-Member :
    (d : String) (rs : Registry) (r : InstalledPackRecord)
    → Member r (filterb (has_id d) rs)
    → Member r rs × (r.id ≡ d)
unfolding filterb has_id
filterb-Member d [] r m = elim m [ ]
filterb-Member d (q ∷ rs) r m =
    kept (λ n. let (k, e) = filterb-Member d rs r n in (there q rs k, e)) (has_id d q) refl m
  where
    first : q ≡ r → has_id d q ≡ true → r.id ≡ d
    first e h = sym (ap (λ (x : InstalledPackRecord). x.id) e) ∙ ground (arith, h, eq_iff q.id d)

    kept :
        (Member r (filterb (has_id d) rs) → Member r (q ∷ rs) × (r.id ≡ d))
        → (b : Bool) → has_id d q ≡ b
        → Member r (elim b [ true ↦ q ∷ filterb (has_id d) rs | false ↦ filterb (has_id d) rs ])
        → Member r (q ∷ rs) × (r.id ≡ d)
    kept rest true h (here _ _ e) = (here q rs e, first e h)
    kept rest true h (there _ _ n) = rest n
    kept rest false h n = rest n

pub find-Member :
    (rs : Registry) (d : String) (v : Option String) (r : InstalledPackRecord)
    → find rs d v ≡ some r
    → Member r rs × (r.id ≡ d)
unfolding find find_among
find-Member rs d v r h = filterb-Member d rs r (among (filterb (has_id d) rs) v h)
  where
    among : (qs : Registry) (u : Option String) → find_among qs u ≡ some r → Member r qs
    among [] u k = cc
    among (q ∷ qs) (some u) k = first_version-Member u (q ∷ qs) r k
    among (q ∷ qs) none k = elim (highest-Member q qs) [
      | inl e ↦ here q qs (sym e ∙ some_eq k)
      | inr m ↦ there q qs (subst (λ x. Member x qs) (some_eq k) m)
    ]
