-- ===== src/Transition/Validate.antt =====
-- `Transition.validate` and its validators (src/vcse/transitions/state_transition.py).
use vcse.Prelude.{
  Bool, true, false, not, Option, none, some, [], ◌∷◌, if◌then◌else◌, string_eq, is_some,
}
use vcse.Dict.{get}
use vcse.Value.{Value, texts}
use vcse.Text.Norm.{strip}
use vcse.Memory.Keys.{concat}
use vcse.Memory.Model.{State, Made, made, value_error, make_constraint}
use vcse.Memory.{get_claim, unknown_relation}
use vcse.Verifier.Base.{says, invalid_status, VerificationResult}
use vcse.Transition.Args.{
  Action, add_claim_action, add_constraint_action, update_truth_status_action, bind_symbol_action,
  add_goal_action, add_evidence_action, record_contradiction_action, parse_action, Transition, Args,
  invalid, valid, required, arg, arg_str, arg_str_or, truth_status_from_arg,
}

unfoldable pub validate_add_claim : Args → State → VerificationResult
unfolding required
validate_add_claim args s =
    let relation = strip (arg_str args "relation") in
    required "AddClaim" ("subject" ∷ "relation" ∷ "object" ∷ []) args (
      if unknown_relation s relation
      then invalid (says (concat ("Unknown relation schema: " ∷ relation ∷ [])))
      else valid)

abbrev pub made_valid : Made → VerificationResult
made_valid (made c) = valid
made_valid (value_error reason) = invalid (says reason)

-- `Constraint(...)` on the arguments
unfoldable pub constraint_of : Args → Made
constraint_of args =
    make_constraint (arg_str args "kind") (arg_str args "target") (arg_str args "operator")
      (arg args "value") (arg_str_or args "description" "")

unfoldable pub validate_add_constraint : Args → State → VerificationResult
unfolding required
validate_add_constraint args s =
    required "AddConstraint" ("kind" ∷ "target" ∷ "operator" ∷ "value" ∷ []) args
      (made_valid (constraint_of args))

unfoldable pub validate_update_truth_status : Args → State → VerificationResult
unfolding required
validate_update_truth_status args s =
    let id = arg_str args "claim_id" in
    let raw = arg args "status" in
    required "UpdateTruthStatus" ("claim_id" ∷ "status" ∷ []) args (
      if not (is_some (get_claim s id))
      then invalid (says (concat ("Unknown claim_id: " ∷ id ∷ [])))
      else if not (is_some (truth_status_from_arg raw))
      then invalid (invalid_status raw)
      else valid)

unfoldable pub validate_bind_symbol : Args → State → VerificationResult
unfolding required
validate_bind_symbol args s = required "BindSymbol" ("name" ∷ "value" ∷ []) args valid

unfoldable pub validate_add_goal : Args → State → VerificationResult
unfolding required
validate_add_goal args s = required "AddGoal" ("subject" ∷ "relation" ∷ "object" ∷ []) args valid

unfoldable pub validate_add_evidence : Args → State → VerificationResult
unfolding required
validate_add_evidence args s = required "AddEvidence" ("target_id" ∷ "content" ∷ []) args valid

-- `isinstance(args.get("related_element_ids", []), list)`
abbrev pub is_list : Option Value → Bool
is_list none = true
is_list (some (texts items s)) = true
is_list (some _) = false

unfoldable pub validate_record_contradiction : Args → State → VerificationResult
unfolding required
validate_record_contradiction args s =
    required "RecordContradiction" ("element_id" ∷ "reason" ∷ []) args (
      if not (is_list (get args "related_element_ids"))
      then invalid (says "related_element_ids must be a list when provided")
      else valid)

unfoldable pub validate_action : Action → Args → State → VerificationResult
validate_action add_claim_action args s = validate_add_claim args s
validate_action add_constraint_action args s = validate_add_constraint args s
validate_action update_truth_status_action args s = validate_update_truth_status args s
validate_action bind_symbol_action args s = validate_bind_symbol args s
validate_action add_goal_action args s = validate_add_goal args s
validate_action add_evidence_action args s = validate_add_evidence args s
validate_action record_contradiction_action args s = validate_record_contradiction args s

-- `none` is a type that is not in ALL_ACTIONS.
unfoldable pub validate_parsed : Transition → State → Option Action → VerificationResult
unfolding validate_action
validate_parsed t s none = invalid (says (concat ("Unsupported transition type: " ∷ t.type ∷ [])))
validate_parsed t s (some action) = validate_action action t.args s

-- `validate`
unfoldable pub validate : Transition → State → VerificationResult
unfolding validate_parsed
validate t s = validate_parsed t s (parse_action t.type)
