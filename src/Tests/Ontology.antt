-- ===== src/Tests/Ontology.antt =====
-- src/vcse/ontology/lifecycle.py on a proposal that goes through, with one revision.
use vcse.Prelude.{◌≡◌, refl, true, contains, string_eq, String, List, [], ◌∷◌}
use vcse.Ontology.{validate_lifecycle_transition, known_lifecycle_states}
use vcse.Ontology.History.{History, proposed, moved, active_history, status-IsLive, IsLive}

-- Revised once before it is analysed
abbrev valid_again : List String
valid_again = "STRUCTURALLY_VALID" ∷ "NEEDS_REVISION" ∷ "STRUCTURALLY_VALID" ∷ "PROPOSED" ∷ []

abbrev steps_to_staged : List String
steps_to_staged =
    "STAGED" ∷ "APPROVED" ∷ "REGRESSION_TESTED" ∷ "CONFLICT_CHECKED" ∷ "IMPACT_ANALYZED"
    ∷ valid_again

made_active : History ("ACTIVE" ∷ steps_to_staged)
unfolding validate_lifecycle_transition contains
made_active =
    moved _ _ _
      (moved _ _ _
        (moved _ _ _
          (moved _ _ _
            (moved _ _ _
              (moved _ _ _ (moved _ _ _ (moved _ _ _ (moved _ _ _ proposed refl) refl) refl) refl)
              refl)
            refl)
          refl)
        refl)
      refl

active_history_example :
    (rest : List String) × (steps_to_staged
      ≡ "STAGED" ∷ "APPROVED" ∷ "REGRESSION_TESTED" ∷ "CONFLICT_CHECKED" ∷ "IMPACT_ANALYZED"
        ∷ "STRUCTURALLY_VALID" ∷ rest)
active_history_example = active_history steps_to_staged made_active

revision_known : contains "NEEDS_REVISION" known_lifecycle_states ≡ true
unfolding contains
revision_known = refl

status-IsLive_example : IsLive "NEEDS_REVISION"
status-IsLive_example = status-IsLive "NEEDS_REVISION" revision_known
