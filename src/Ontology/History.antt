-- ===== src/Ontology/History.antt =====
-- The histories that `validate_lifecycle_transition` (src/vcse/ontology/lifecycle.py) allows.
use vcse.Prelude.{
  ◌≡◌, refl, sym, ap, ◌∙◌, true, false, Bool-cases, ◌==◌, string_eq, pair_eq, String, List, [], ◌∷◌,
  contains, ◌⊎◌, inl, inr, arith, sources, targets, contains-sources, contains-targets,
  contains-All, All, list_head, list_tail, subst,
}
use text.Mathlib.TextEquality.{eq_iff}
use vcse.Ontology.{
  known_lifecycle_states, allowed_transitions, transition_result, validate_lifecycle_transition,
}

-- The states an item went through from its proposal on, the latest first
pub data History : List String → Type 0 where
  proposed : History ("PROPOSED" ∷ [])
  moved :
      (to_status from_status : String) (before : List String)
      → History (from_status ∷ before)
      → (validate_lifecycle_transition from_status to_status).0 ≡ true
      → History (to_status ∷ from_status ∷ before)

allowed :
    (a b : String)
    → (validate_lifecycle_transition a b).0 ≡ true
    → contains (a, b) allowed_transitions ≡ true
unfolding validate_lifecycle_transition transition_result
allowed a b h = ground arith

from_source :
    (a b : String)
    → (validate_lifecycle_transition a b).0 ≡ true
    → contains a (sources b allowed_transitions) ≡ true
from_source a b h = sym (contains-sources a b allowed_transitions) ∙ allowed a b h

to_target :
    (a b : String)
    → (validate_lifecycle_transition a b).0 ≡ true
    → contains b (targets a allowed_transitions) ≡ true
to_target a b h = sym (contains-targets a b allowed_transitions) ∙ allowed a b h

module _ (a b : String) (only : sources b allowed_transitions ≡ a ∷ [])
    (made : (b == "PROPOSED") ≡ false) where
  before_eq : (x : String) → (validate_lifecycle_transition x b).0 ≡ true → x ≡ a
  unfolding contains
  before_eq x h = ground (arith, eq_iff a x, sym (ap (contains x) only) ∙ from_source x b h)

  -- A state with one source has it just before it.
  previous :
      (all : List String) (before : List String)
      → all ≡ b ∷ before
      → History all
      → (rest : List String) × (before ≡ a ∷ rest) × History (a ∷ rest)
  previous all before e proposed = cc ((eq_iff b "PROPOSED").1 (sym (list_head e)), made)
  previous all before e (moved t x rest h is_allowed) =
      let same =
        before_eq x
          (subst (λ u. (validate_lifecycle_transition x u).0 ≡ true) (list_head e) is_allowed) in
      (rest, sym (list_tail e) ∙ ap (λ u. u ∷ rest) same, subst (λ u. History (u ∷ rest)) same h)

-- An item is active only after it was, in this order and with nothing between, structurally valid,
-- analysed for impact, checked for conflicts, regression-tested, approved and staged.
pub active_history :
    (before : List String)
    → History ("ACTIVE" ∷ before)
    → (rest : List String) × (before
        ≡ "STAGED" ∷ "APPROVED" ∷ "REGRESSION_TESTED" ∷ "CONFLICT_CHECKED" ∷ "IMPACT_ANALYZED"
          ∷ "STRUCTURALLY_VALID" ∷ rest)
active_history before h =
    let (r1, e1, h1) = previous "STAGED" "ACTIVE" refl refl _ before refl h in
    let (r2, e2, h2) = previous "APPROVED" "STAGED" refl refl _ r1 refl h1 in
    let (r3, e3, h3) = previous "REGRESSION_TESTED" "APPROVED" refl refl _ r2 refl h2 in
    let (r4, e4, h4) = previous "CONFLICT_CHECKED" "REGRESSION_TESTED" refl refl _ r3 refl h3 in
    let (r5, e5, h5) = previous "IMPACT_ANALYZED" "CONFLICT_CHECKED" refl refl _ r4 refl h4 in
    let (r6, e6, h6) = previous "STRUCTURALLY_VALID" "IMPACT_ANALYZED" refl refl _ r5 refl h5 in
    (r6, cc)

-- The states that allowed transitions lead to
pub data Leads (goal : String) : String → Type 0 where
  there_already : Leads goal goal
  by :
      (from_status to_status : String)
      → (validate_lifecycle_transition from_status to_status).0 ≡ true
      → Leads goal to_status
      → Leads goal from_status

abbrev pub IsLive : String → Type 0
IsLive s = ((t : String) → (validate_lifecycle_transition s t).0 ≡ false) ⊎ Leads "ACTIVE" s

ended : (s : String) → targets s allowed_transitions ≡ [] → IsLive s
unfolding contains
ended s e = inl (λ t. elim (Bool-cases (validate_lifecycle_transition s t).0) [
  | inl h ↦ cc (to_target s t h, ap (contains t) e)
  | inr h ↦ h
])

from_staged : Leads "ACTIVE" "STAGED"
unfolding validate_lifecycle_transition contains
from_staged = by "STAGED" "ACTIVE" refl there_already

from_approved : Leads "ACTIVE" "APPROVED"
unfolding validate_lifecycle_transition contains
from_approved = by "APPROVED" "STAGED" refl from_staged

from_tested : Leads "ACTIVE" "REGRESSION_TESTED"
unfolding validate_lifecycle_transition contains
from_tested = by "REGRESSION_TESTED" "APPROVED" refl from_approved

from_checked : Leads "ACTIVE" "CONFLICT_CHECKED"
unfolding validate_lifecycle_transition contains
from_checked = by "CONFLICT_CHECKED" "REGRESSION_TESTED" refl from_tested

from_analyzed : Leads "ACTIVE" "IMPACT_ANALYZED"
unfolding validate_lifecycle_transition contains
from_analyzed = by "IMPACT_ANALYZED" "CONFLICT_CHECKED" refl from_checked

from_valid : Leads "ACTIVE" "STRUCTURALLY_VALID"
unfolding validate_lifecycle_transition contains
from_valid = by "STRUCTURALLY_VALID" "IMPACT_ANALYZED" refl from_analyzed

from_proposed : Leads "ACTIVE" "PROPOSED"
unfolding validate_lifecycle_transition contains
from_proposed = by "PROPOSED" "STRUCTURALLY_VALID" refl from_valid

from_revision : Leads "ACTIVE" "NEEDS_REVISION"
unfolding validate_lifecycle_transition contains
from_revision = by "NEEDS_REVISION" "STRUCTURALLY_VALID" refl from_valid

all-IsLive : All IsLive known_lifecycle_states
all-IsLive = (
  inr from_proposed,
  (
    inr from_valid,
    (
      inr from_analyzed,
      (
        inr from_checked,
        (
          inr from_tested,
          (
            inr from_approved,
            (
              inr from_staged,
              (
                inr there_already,
                (
                  inr from_revision,
                  (
                    ended "REJECTED" refl,
                    (
                      ended "QUARANTINED" refl,
                      (
                        ended "DEPRECATED" refl,
                        (ended "SUPERSEDED" refl, (ended "ROLLED_BACK" refl, tt)),
                      ),
                    ),
                  ),
                ),
              ),
            ),
          ),
        ),
      ),
    ),
  ),
)

-- From every known state, either no transition is allowed, or allowed transitions lead to ACTIVE.
pub status-IsLive : (s : String) → contains s known_lifecycle_states ≡ true → IsLive s
status-IsLive s h = contains-All IsLive s known_lifecycle_states all-IsLive h
