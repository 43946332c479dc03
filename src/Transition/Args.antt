-- ===== src/Transition/Args.antt =====
-- `Transition` of src/vcse/transitions/state_transition.py, the actions of actions.py, and the
-- reading of a transition's `args`.
use vcse.Prelude.{
  String, not, ◌==◌, string_eq, Option, none, some, List, [], ◌∷◌, is_empty, filterb, if◌then◌else◌,
}
use vcse.Dict.{Dict, get}
use vcse.Value.{
  Value, null, status, TruthStatus, asserted, supported, refuted, assumed, unknown, str, is_missing,
}
use vcse.Memory.Keys.{concat, join_comma}
use vcse.Verifier.Base.{Reason, says, VerificationResult, pass_result, fail_result}

-- The constants of actions.py; `parse_action` is the test `type in ALL_ACTIONS`.
pub data Action : Type 0 where
  add_claim_action add_constraint_action update_truth_status_action bind_symbol_action : Action
  add_goal_action add_evidence_action record_contradiction_action : Action

unfoldable pub parse_action : String → Option Action
parse_action s =
    if s == "AddClaim"
    then some add_claim_action
    else if s == "AddConstraint"
    then some add_constraint_action
    else if s == "UpdateTruthStatus"
    then some update_truth_status_action
    else if s == "BindSymbol"
    then some bind_symbol_action
    else if s == "AddGoal"
    then some add_goal_action
    else if s == "AddEvidence"
    then some add_evidence_action
    else if s == "RecordContradiction"
    then some record_contradiction_action
    else none

pub record Transition : Type 0 where
  pub type : String
  pub args : Dict String Value
  pub description : String
  pub expected_effect : String
  pub source : String

abbrev pub Args : Type 0
Args = Dict String Value

-- `VerificationResult.fail_result(status="INVALID_TRANSITION", reasons=[reason])`
abbrev pub invalid : Reason → VerificationResult
invalid reason = fail_result "INVALID_TRANSITION" (reason ∷ []) []

abbrev pub valid : VerificationResult
valid = pass_result "VALID_TRANSITION" 10 [] []

-- `_missing_required`
unfoldable pub missing_required : Args → List String → List String
missing_required args required = filterb (λ key. is_missing (get args key)) required

-- The first check of every validator, and the rest of it.
unfoldable pub required : String → List String → Args → VerificationResult → VerificationResult
unfolding missing_required
required name names args rest =
    let missing = missing_required args names in
    if not (is_empty missing)
    then invalid (says (concat ("Missing required " ∷ name ∷ " args: " ∷ join_comma missing ∷ [])))
    else rest

-- `str(args[key])`. The code reads only keys that `_missing_required` has found there.
unfoldable pub arg_str : Args → String → String
unfolding str
arg_str args key = elim (get args key) [ none ↦ "" | some v ↦ str v ]

-- `args[key]`, likewise
unfoldable pub arg : Args → String → Value
arg args key = elim (get args key) [ none ↦ null | some v ↦ v ]

-- `str(args.get(key, default))`
unfoldable pub arg_str_or : Args → String → String → String
unfolding str
arg_str_or args key default = elim (get args key) [ none ↦ default | some v ↦ str v ]

unfoldable pub parse_status : String → Option TruthStatus
parse_status s =
    if s == "ASSERTED"
    then some asserted
    else if s == "SUPPORTED"
    then some supported
    else if s == "REFUTED"
    then some refuted
    else if s == "ASSUMED"
    then some assumed
    else if s == "UNKNOWN"
    then some unknown
    else none

-- `_truth_status_from_arg`: `none` is the ValueError.
unfoldable pub truth_status_from_arg : Value → Option TruthStatus
unfolding parse_status str
truth_status_from_arg (status t) = some t
truth_status_from_arg v = parse_status (str v)
