-- ===== src/Trust/Scorer.antt =====
-- The source registry of src/vcse/trust/scorer.py. The scores are the floats of the source, written
-- as the fractions that they are: 0.95 is 4278419646001971 / 2 ^ 52.
use vcse.Prelude.{ℕ, Bool, true, false, string_eq, String, Option, none, some, [], ◌∷◌}
use vcse.Number.{Number, finite}
use vcse.Dict.{Dict, get, set}

pub record SourceAuthority : Type 0 where
  pub id : String
  pub name : String
  pub domain : String
  pub trust_score : Number
  pub source_type : String
  pub requires_multi_source : Bool
  pub requires_recency : Bool
  pub freshness_days : Option ℕ
  pub notes : String

-- An authority of the "general" domain, without notes
abbrev general :
    (id name : String)
    → Number
    → (source_type : String) (requires_multi_source requires_recency : Bool) → Option ℕ
    → SourceAuthority
general i n score t multi recency days = record {
  id = i;
  name = n;
  domain = "general";
  trust_score = score;
  source_type = t;
  requires_multi_source = multi;
  requires_recency = recency;
  freshness_days = days;
  notes = "";
}

abbrev pub unknown_authority : SourceAuthority
unknown_authority =
    general "unknown" "Unknown" (finite 3602879701896397 0 54) "unknown" true false none

-- `DEFAULT_AUTHORITIES`
abbrev pub default_authorities : Dict String SourceAuthority
default_authorities =
    (
      "official_government",
      general "official_government" "Official Government Source" (finite 4278419646001971 0 52)
          "api" false true (some 30),
    )
    ∷ (
      "standards_body",
      general "standards_body" "Standards Body" (finite 8106479329266893 0 53) "text" false false
          (none),
    )
    ∷ (
      "academic_reference",
      general "academic_reference" "Academic Reference" (finite 7656119366529843 0 53) "text" false
          false (none),
    )
    ∷ (
      "wikidata",
      general "wikidata" "Wikidata" (finite 3602879701896397 0 52) "api" true false (none),
    )
    ∷ (
      "wikipedia",
      general "wikipedia" "Wikipedia" (finite 3152519739159347 0 52) "text" true false (none),
    )
    ∷ ("local_file", general "local_file" "Local File" (finite 1 0 1) "file" true false (none))
    ∷ ("unknown", unknown_authority)
    ∷ []

-- `update` of a dict by the entries of another one
abbrev pub update :
    Dict String SourceAuthority → Dict String SourceAuthority → Dict String SourceAuthority
update d [] = d
update d ((k, v) ∷ more) = update (set d k v) more

-- `SourceAuthorityRegistry(authorities)`, where no argument is the empty dict
unfoldable pub make_registry : Dict String SourceAuthority → Dict String SourceAuthority
make_registry authorities = update default_authorities authorities

-- `get`; "unknown" is always there.
unfoldable pub get_authority : Dict String SourceAuthority → String → SourceAuthority
get_authority registry source_id = elim (get registry source_id) [
  | some a ↦ a
  | none ↦ elim (get registry "unknown") [ some a ↦ a | none ↦ unknown_authority ]
]

unfoldable pub score : Dict String SourceAuthority → String → Number
unfolding get_authority
score registry source_id = (get_authority registry source_id).trust_score
