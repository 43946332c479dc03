-- ===== src/Packs/Registry.antt =====
-- `PackRegistry` of src/vcse/packs/registry.py, on the list that its file holds, without `search`.
use vcse.Prelude.{
  ℕ, ◌-◌, Bool, true, not, ◌&&◌, ◌==◌, string_eq, String, Option, none, some, List, [], ◌∷◌, ◌++◌,
  filterb, is_empty, length, if◌then◌else◌,
}
use vcse.Text.Parts.{str_lt}
use vcse.Memory.Keys.{concat}

pub record PackError : Type 0 where
  pub error_type : String
  pub reason : String

pub record Dependency : Type 0 where
  pub id : String
  pub version : String

pub record InstalledPackRecord : Type 0 where
  pub id : String
  pub version : String
  pub name : String
  pub domain : String
  pub install_path : String
  pub source_path : String
  pub installed_at : String
  pub validation_passed : Bool
  pub dependencies : List Dependency

abbrev pub Registry : Type 0
Registry = List InstalledPackRecord

-- `item.get("id") == pack_id`
unfoldable pub has_id : String → InstalledPackRecord → Bool
has_id pack_id item = item.id == pack_id

-- The record is of this id and this version
unfoldable pub is_pack : (pack_id version : String) → InstalledPackRecord → Bool
is_pack pack_id version item = item.id == pack_id && item.version == version

-- Whether the key (id, version) of `b` is below that of `a`
abbrev comes_after : InstalledPackRecord → InstalledPackRecord → Bool
comes_after a b = if str_lt b.id a.id then true else b.id == a.id && str_lt b.version a.version

unfoldable pub insert_record : InstalledPackRecord → Registry → Registry
insert_record r [] = r ∷ []
insert_record r (q ∷ qs) =
    let rest = insert_record r qs in if comes_after r q then q ∷ rest else r ∷ q ∷ qs

-- `sorted(packs, key=...)`
unfoldable pub sort_records : Registry → Registry
unfolding insert_record
sort_records [] = []
sort_records (r ∷ rs) = insert_record r (sort_records rs)

pub data Added : Type 0 where
  added : Registry → Added
  refused : PackError → Added

-- `add`
unfoldable pub add : Registry → InstalledPackRecord → (force : Bool) → Added
unfolding is_pack sort_records
add packs record' force =
    let existing = filterb (is_pack record'.id record'.version) packs in
    if not (is_empty existing) && not force
    then refused (record {
      error_type = "PACK_EXISTS";
      reason = concat ("pack already installed: " ∷ record'.id ∷ "@" ∷ record'.version ∷ []);
    })
    else added (
        sort_records
          (filterb (λ item. not (is_pack record'.id record'.version item)) packs ++ record' ∷ []))

-- `remove`, with the number of records that it takes out
unfoldable pub remove : Registry → (pack_id : String) → (version : Option String) → Registry × ℕ
unfolding has_id is_pack
remove packs pack_id none =
    let filtered = filterb (λ item. not (has_id pack_id item)) packs in
    (filtered, length packs - length filtered)
remove packs pack_id (some version) =
    let filtered = filterb (λ item. not (is_pack pack_id version item)) packs in
    (filtered, length packs - length filtered)

-- The first of the records with the highest version, as a text
unfoldable pub highest : InstalledPackRecord → Registry → InstalledPackRecord
highest best [] = best
highest best (r ∷ rs) = highest (if str_lt best.version r.version then r else best) rs

unfoldable pub first_version : String → Registry → Option InstalledPackRecord
first_version version [] = none
first_version version (r ∷ rs) =
    let rest = first_version version rs in if r.version == version then some r else rest

unfoldable pub find_among : Registry → Option String → Option InstalledPackRecord
unfolding highest first_version
find_among [] version = none
find_among (r ∷ rs) none = some (highest r rs)
find_among (r ∷ rs) (some version) = first_version version (r ∷ rs)

-- `find`
unfoldable pub find :
    Registry → (pack_id : String) → (version : Option String) → Option InstalledPackRecord
unfolding find_among has_id
find packs pack_id version = find_among (filterb (has_id pack_id) packs) version
