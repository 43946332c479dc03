-- ===== src/Ontology.antt =====
-- The life of an ontology item: src/vcse/ontology/lifecycle.py, with the states of model.py.
pub mod History
use vcse.Prelude.{
  Bool, true, false, ◌==◌, string_eq, pair_eq, String, List, [], ◌∷◌, contains, if◌then◌else◌,
}

-- `KNOWN_LIFECYCLE_STATES`
abbrev pub known_lifecycle_states : List String
known_lifecycle_states =
    "PROPOSED" ∷ "STRUCTURALLY_VALID" ∷ "IMPACT_ANALYZED" ∷ "CONFLICT_CHECKED" ∷ "REGRESSION_TESTED"
    ∷ "APPROVED" ∷ "STAGED" ∷ "ACTIVE" ∷ "NEEDS_REVISION" ∷ "REJECTED" ∷ "QUARANTINED"
    ∷ "DEPRECATED" ∷ "SUPERSEDED" ∷ "ROLLED_BACK" ∷ []

-- `_ALLOWED_TRANSITIONS`
abbrev pub allowed_transitions : List (String × String)
allowed_transitions =
    ("PROPOSED", "STRUCTURALLY_VALID")
    ∷ ("STRUCTURALLY_VALID", "IMPACT_ANALYZED")
    ∷ ("IMPACT_ANALYZED", "CONFLICT_CHECKED")
    ∷ ("CONFLICT_CHECKED", "REGRESSION_TESTED")
    ∷ ("REGRESSION_TESTED", "APPROVED")
    ∷ ("APPROVED", "STAGED")
    ∷ ("STAGED", "ACTIVE")
    ∷ ("PROPOSED", "REJECTED")
    ∷ ("STRUCTURALLY_VALID", "NEEDS_REVISION")
    ∷ ("IMPACT_ANALYZED", "NEEDS_REVISION")
    ∷ ("CONFLICT_CHECKED", "NEEDS_REVISION")
    ∷ ("REGRESSION_TESTED", "NEEDS_REVISION")
    ∷ ("APPROVED", "REJECTED")
    ∷ ("STAGED", "REJECTED")
    ∷ ("ACTIVE", "DEPRECATED")
    ∷ ("ACTIVE", "SUPERSEDED")
    ∷ ("ACTIVE", "ROLLED_BACK")
    ∷ ("PROPOSED", "QUARANTINED")
    ∷ ("STRUCTURALLY_VALID", "QUARANTINED")
    ∷ ("IMPACT_ANALYZED", "QUARANTINED")
    ∷ ("CONFLICT_CHECKED", "QUARANTINED")
    ∷ ("REGRESSION_TESTED", "QUARANTINED")
    ∷ ("APPROVED", "QUARANTINED")
    ∷ ("STAGED", "QUARANTINED")
    ∷ ("NEEDS_REVISION", "STRUCTURALLY_VALID")
    ∷ []

-- The last test, whether the pair is in the table
unfoldable pub transition_result : Bool → Bool × String
transition_result true = (true, "ONTOLOGY_TRANSITION_ALLOWED")
transition_result false = (false, "ONTOLOGY_TRANSITION_INVALID")

unfoldable pub validate_lifecycle_transition : (from_status to_status : String) → Bool × String
unfolding transition_result
validate_lifecycle_transition from_status to_status =
    if contains from_status known_lifecycle_states
    then if contains to_status known_lifecycle_states
      then transition_result (contains (from_status, to_status) allowed_transitions)
      else (false, "ONTOLOGY_STATUS_UNKNOWN")
    else (false, "ONTOLOGY_STATUS_UNKNOWN")

-- `is_active`, and `is_authoritative_for_source_support`, which is the same test
unfoldable pub is_active : String → Bool
is_active status = status == "ACTIVE"
