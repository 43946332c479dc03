-- ===== src/Transition/Apply.antt =====
-- `Transition.apply` and its appliers (src/vcse/transitions/state_transition.py).
use vcse.Prelude.{
  ◌-◌, String, not, Option, none, some, List, [], ◌∷◌, length, is_empty, ◌==◌, string_eq,
  if◌then◌else◌,
}
use vcse.Dict.{get}
use vcse.Number.{finite, equal}
use vcse.Value.{Value, null, boolean, num, text, status, texts, dict, other, TruthStatus, supported}
use vcse.Memory.Model.{State, Made, made, value_error}
use vcse.Memory.{
  clone, add_claim, add_constraint, constraint_id_for_index, update_truth_status, bind_symbol,
  add_goal, add_evidence, record_contradiction,
}
use vcse.Verifier.Base.{says, invalid_status, VerificationResult, pass_result}
use vcse.Transition.Args.{
  Action, add_claim_action, add_constraint_action, update_truth_status_action, bind_symbol_action,
  add_goal_action, add_evidence_action, record_contradiction_action, parse_action, Transition,
  invalid, arg, arg_str, arg_str_or, truth_status_from_arg,
}
use vcse.Transition.Validate.{validate, constraint_of}

-- What `apply` does: it returns the new state with a result, or an exception leaves it.
pub data Outcome : Type 0 where
  returned : State → VerificationResult → Outcome
  raised : Outcome

-- `VerificationResult.pass_result(status="APPLIED", ...)`
unfoldable pub applied : Transition → String → VerificationResult
applied t element = pass_result "APPLIED" 10 (says t.expected_effect ∷ []) (element ∷ [])

abbrev pub done : Transition → State × String → Outcome
done t (s, element) = returned s (applied t element)

-- `args.get("dependencies")`; `none` means that it is given and no list.
unfoldable pub dependencies_arg : Option Value → Option (List String)
dependencies_arg none = some []
dependencies_arg (some null) = some []
dependencies_arg (some (texts items s)) = some items
dependencies_arg (some _) = none

-- `_truth_status_from_arg(args.get("status", TruthStatus.SUPPORTED))`
unfoldable pub status_arg : Option Value → Option TruthStatus
unfolding truth_status_from_arg
status_arg none = some supported
status_arg (some v) = truth_status_from_arg v

-- What `_norm_qualifiers` makes of `args.get("qualifiers")`: nothing of what is false, the items
-- of a dict, and of anything else an AttributeError, which is `none`.
unfoldable pub qualifiers_arg : Option Value → Option (List (String × String))
unfolding equal
qualifiers_arg none = some []
qualifiers_arg (some null) = some []
qualifiers_arg (some (dict items s)) = some items
qualifiers_arg (some (boolean b)) = if b then none else some []
qualifiers_arg (some (num n s)) = if equal n (finite 0 0 0) then some [] else none
qualifiers_arg (some (text s)) = if s == "" then some [] else none
qualifiers_arg (some (texts items s)) = if is_empty items then some [] else none
qualifiers_arg (some (status t)) = none
qualifiers_arg (some (other s)) = none

-- The steps of `_apply_add_claim`, each with the outcome of the one before it.
unfoldable pub claim_added :
    Transition → State → List String → TruthStatus → Option (List (String × String)) → Outcome
claim_added t s dependencies st none = raised
claim_added t s dependencies st (some qualifiers) = done t (
    add_claim s (arg_str t.args "subject") (arg_str t.args "relation") (arg_str t.args "object") st
      qualifiers dependencies t.source)

unfoldable pub claim_status : Transition → State → List String → Option TruthStatus → Outcome
unfolding claim_added qualifiers_arg
claim_status t s dependencies none = returned s (invalid (invalid_status (arg t.args "status")))
claim_status t s dependencies (some st) =
    claim_added t s dependencies st (qualifiers_arg (get t.args "qualifiers"))

unfoldable pub claim_dependencies : Transition → State → Option (List String) → Outcome
unfolding claim_status status_arg
claim_dependencies t s none =
    returned s (invalid (says "dependencies must be a list when provided"))
claim_dependencies t s (some dependencies) =
    claim_status t s dependencies (status_arg (get t.args "status"))

unfoldable pub apply_add_claim : Transition → State → Outcome
unfolding claim_dependencies dependencies_arg
apply_add_claim t s = claim_dependencies t s (dependencies_arg (get t.args "dependencies"))

-- A ValueError here would leave `apply`; `validate` has made the same constraint.
unfoldable pub constraint_added : Transition → State → Made → Outcome
constraint_added t s (value_error reason) = raised
constraint_added t s (made c) =
    let s' = add_constraint s c in done t (s', constraint_id_for_index (length s'.constraints - 1))

unfoldable pub apply_add_constraint : Transition → State → Outcome
unfolding constraint_added constraint_of
apply_add_constraint t s = constraint_added t s (constraint_of t.args)

unfoldable pub status_updated : Transition → State → String → Option TruthStatus → Outcome
status_updated t s id none = raised
status_updated t s id (some st) = done t ((update_truth_status s id st).0, id)

unfoldable pub apply_update_truth_status : Transition → State → Outcome
unfolding status_updated
apply_update_truth_status t s =
    status_updated t s (arg_str t.args "claim_id") (truth_status_from_arg (arg t.args "status"))

unfoldable pub apply_bind_symbol : Transition → State → Outcome
apply_bind_symbol t s = done t (bind_symbol s (arg_str t.args "name") (arg t.args "value"))

unfoldable pub apply_add_goal : Transition → State → Outcome
apply_add_goal t s =
    done t
      (add_goal s (arg_str t.args "subject") (arg_str t.args "relation") (arg_str t.args "object"))

unfoldable pub apply_add_evidence : Transition → State → Outcome
apply_add_evidence t s = done t (
    add_evidence s (arg_str t.args "target_id") (arg_str t.args "content")
      (arg_str_or t.args "source" t.source))

-- `[str(item) for item in args.get("related_element_ids", [])]`; `validate` has seen a list.
abbrev pub items_of : Option Value → List String
items_of (some (texts items s)) = items
items_of _ = []

unfoldable pub apply_record_contradiction : Transition → State → Outcome
apply_record_contradiction t s = done t (
    record_contradiction s (arg_str t.args "element_id") (arg_str t.args "reason")
      (items_of (get t.args "related_element_ids")) (arg_str_or t.args "severity" "high"))

unfoldable pub apply_action : Action → Transition → State → Outcome
apply_action add_claim_action t s = apply_add_claim t s
apply_action add_constraint_action t s = apply_add_constraint t s
apply_action update_truth_status_action t s = apply_update_truth_status t s
apply_action bind_symbol_action t s = apply_bind_symbol t s
apply_action add_goal_action t s = apply_add_goal t s
apply_action add_evidence_action t s = apply_add_evidence t s
apply_action record_contradiction_action t s = apply_record_contradiction t s

-- A type that is no action has failed validation.
unfoldable pub run_applier : Transition → State → Option Action → Outcome
unfolding apply_action
run_applier t s none = raised
run_applier t s (some action) = apply_action action t s

-- `apply`
unfoldable pub apply : Transition → State → Outcome
unfolding validate apply_action run_applier
apply t s =
    let validation = validate t s in
    let new_state = clone s in
    if not validation.passed
    then returned new_state validation
    else run_applier t new_state (parse_action t.type)
