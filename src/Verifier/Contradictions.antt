-- ===== src/Verifier/Contradictions.antt =====
-- `ContradictionDetector` of src/vcse/verifier/contradiction_detector.py: it records each conflict
-- that it finds in the state it judges.
pub mod Bounds
use vcse.Prelude.{
  ℕ, suc, String, Bool, true, false, not, ◌&&◌, ◌||◌, ◌==◌, string_eq, Option, none, some, List, [],
  ◌∷◌, ◌++◌, map, is_empty, filterb, if◌then◌else◌,
}
use vcse.Dict.{Dict, get, set, values}
use vcse.Number.{Number, Operator, gt, ge, lt_op, le_op, eq_op, ne_op, lt, equal}
use vcse.Value.{Value, TruthStatus, asserted, supported, refuted, assumed, unknown, str, as_number}
use vcse.Memory.Keys.{concat}
use vcse.Memory.Model.{State, Claim, Constraint, operator_text}
use vcse.Memory.{constraint_id_for_index, record_contradiction, or_nil}
use vcse.Verifier.Base.{Reason, says, VerificationResult, pass_result, fail_result}

-- The state that is written to, with `reasons` and `affected`
pub record Found : Type 0 where
  pub state : State
  pub reasons : List String
  pub affected : List String

-- `status in {ASSERTED, SUPPORTED}`
abbrev pub is_final : TruthStatus → Bool
is_final asserted = true
is_final supported = true
is_final _ = false

-- `record_contradiction(left, reason, related_element_ids=[right])` with the two lists extended
unfoldable pub conflict : Found → String → String → String → String → Found
conflict f left right reason severity = record {
  state = (record_contradiction f.state left reason (right ∷ []) severity).0;
  reasons = f.reasons ++ reason ∷ [];
  affected = f.affected ++ left ∷ right ∷ [];
}

-- `equals_by_subject`
unfoldable pub group_equals :
    Dict String (List (String × String)) → List Claim → Dict String (List (String × String))
group_equals d [] = d
group_equals d (c ∷ cs) =
    group_equals
      (if c.relation == "equals" && is_final c.status
        then set d c.subject (or_nil (get d c.subject) ++ (c.id, c.object) ∷ [])
        else d)
      cs

-- The loop over `seen.items()` for one entry
unfoldable pub against_seen : Found → String → String → String → Dict String String → Found
against_seen f subject claim_id value [] = f
against_seen f subject claim_id value ((prior, prior_id) ∷ seen) =
    against_seen
      (if prior == value
        then f
        else conflict f prior_id claim_id
            (concat (subject ∷ " equals both " ∷ prior ∷ " and " ∷ value ∷ [])) "high")
      subject claim_id value seen

-- The loop over the entries of one subject
unfoldable pub equality_entries :
    Found → String → Dict String String → List (String × String) → Found
equality_entries f subject seen [] = f
equality_entries f subject seen ((claim_id, value) ∷ entries) =
    equality_entries (against_seen f subject claim_id value seen) subject (set seen value claim_id)
      entries

unfoldable pub equality_groups : Found → Dict String (List (String × String)) → Found
equality_groups f [] = f
equality_groups f ((subject, entries) ∷ groups) =
    equality_groups (equality_entries f subject [] entries) groups

-- `_detect_equality_conflicts`
unfoldable pub detect_equality_conflicts : Found → Found
detect_equality_conflicts f = equality_groups f (group_equals [] (values f.state.claims))

abbrev pub is_lower : Operator → Bool
is_lower gt = true
is_lower ge = true
is_lower _ = false

abbrev pub is_upper : Operator → Bool
is_upper lt_op = true
is_upper le_op = true
is_upper _ = false

abbrev pub is_strict : Operator → Bool
is_strict gt = true
is_strict lt_op = true
is_strict _ = false

-- `_format_conflict`
unfoldable pub format_conflict : Constraint → Constraint → String
format_conflict left right = concat (
    left.target
    ∷ " "
    ∷ operator_text left.operator
    ∷ " "
    ∷ str left.value
    ∷ " conflicts with "
    ∷ right.target
    ∷ " "
    ∷ operator_text right.operator
    ∷ " "
    ∷ str right.value
    ∷ [])

-- What one order of the pair comes to: the loop goes on, or it returns a result.
pub data Turn : Type 0 where
  go_on : Turn
  result : Option String → Turn

abbrev pub bounds_turn : Constraint → Constraint → Option Number → Option Number → Turn
bounds_turn lower upper none u = result none
bounds_turn lower upper (some l) none = result none
bounds_turn lower upper (some l) (some u) =
    if lt u l
    then result (some (format_conflict lower upper))
    else if equal l u && (is_strict lower.operator || is_strict upper.operator)
    then result (some (format_conflict lower upper))
    else go_on

-- The body of the loop for `lower, upper`
unfoldable pub turn : Constraint → Constraint → Turn
turn lower upper =
    if is_lower lower.operator && is_upper upper.operator
    then bounds_turn lower upper (as_number lower.value) (as_number upper.value)
    else go_on

abbrev pub or_turn : Turn → Turn → Option String
or_turn (result r) t = r
or_turn go_on (result r) = r
or_turn go_on go_on = none

-- `_numeric_conflict_reason`
unfoldable pub numeric_conflict_reason : Constraint → Constraint → Option String
numeric_conflict_reason left right = or_turn (turn left right) (turn right left)

abbrev pub found_conflict : Found → String → String → Option String → Found
found_conflict f left right none = f
found_conflict f left right (some reason) = conflict f left right reason "unsat"

-- The loop over `constraints[left_index + 1 :]`
unfoldable pub against_rest : Found → String → Constraint → List (String × Constraint) → Found
against_rest f left_id left [] = f
against_rest f left_id left ((right_id, right) ∷ rest) =
    against_rest (found_conflict f left_id right_id (numeric_conflict_reason left right)) left_id
      left rest

unfoldable pub numeric_pairs : Found → List (String × Constraint) → Found
numeric_pairs f [] = f
numeric_pairs f ((left_id, left) ∷ rest) = numeric_pairs (against_rest f left_id left rest) rest

unfoldable pub numeric_groups : Found → Dict String (List (String × Constraint)) → Found
numeric_groups f [] = f
numeric_groups f ((target, constraints) ∷ groups) =
    numeric_groups (numeric_pairs f constraints) groups

-- `by_target`
unfoldable pub group_targets :
    Dict String (List (String × Constraint))
    → ℕ
    → List Constraint
    → Dict String (List (String × Constraint))
group_targets d index [] = d
group_targets d index (c ∷ cs) =
    group_targets
      (if c.kind == "numeric"
        then set d c.target (or_nil (get d c.target) ++ (constraint_id_for_index index, c) ∷ [])
        else d)
      (suc index) cs

-- `_detect_numeric_constraint_conflicts`
unfoldable pub detect_numeric_constraint_conflicts : Found → Found
detect_numeric_constraint_conflicts f = numeric_groups f (group_targets [] 0 f.state.constraints)

unfoldable pub detection_result : Found → VerificationResult
detection_result f =
    if not (is_empty f.reasons)
    then fail_result "CONTRADICTIONS_DETECTED" (map says f.reasons) f.affected
    else pass_result "NO_CONTRADICTIONS" 10 (says "No contradictions detected" ∷ []) []

-- `evaluate`
unfoldable pub evaluate : State → State × VerificationResult
evaluate s =
    let start : Found = record { state = s; reasons = []; affected = [] } in
    let found = detect_numeric_constraint_conflicts (detect_equality_conflicts start) in
    (found.state, detection_result found)
