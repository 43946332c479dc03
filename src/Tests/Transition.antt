-- ===== src/Tests/Transition.antt =====
-- src/vcse/transitions at small inputs.
use vcse.Prelude.{String, List, [], ◌∷◌, true, false, none, some, ◌≡◌, ◌⊎◌, refl, string_eq}
use vcse.Dict.{get}
use vcse.Number.{finite}
use vcse.Value.{text, num, supported}
use vcse.Memory.Model.{State}
use vcse.Memory.{clone}
use vcse.Memory.Calls.{Call, claim, run}
use vcse.Memory.Claims.{IsWellFormed}
use vcse.Transition.Args.{Transition, parse_action, add_claim_action}
use vcse.Transition.Validate.{validate, validate_parsed, validate_action}
use vcse.Transition.Apply.{
  apply, returned, raised, applied, qualifiers_arg, run_applier, apply_action,
}
use vcse.Transition.Steps.{apply_refines, apply-IsWellFormed}
use vcse.Transition.Raises.{apply_raises}
use vcse.Tests.Samples.{infer, premises_state, premises-IsWellFormed}
use vcse.Tests.Memory.{memory}

-- The clone with the inferred claim
abbrev inferred_state : State
inferred_state =
    run (clone premises_state)
      (claim "Socrates" "is_a" "Mortal" supported [] ("claim:1" ∷ "claim:2" ∷ []) "rule_based")

abbrev InferReturns : Type 0
InferReturns = apply infer premises_state ≡ returned inferred_state (applied infer "claim:3")

-- The transition is valid, and adds the claim.
apply-infer : InferReturns
unfolding apply memory clone parse_action vcse.Transition.Validate.validate_add_claim
    vcse.Prelude.filterb vcse.Value.is_missing vcse.Memory.unknown_relation
    vcse.Memory.get_relation_schema vcse.Memory.Model.canonical_name vcse.Transition.Args.arg_str
    vcse.Transition.Apply.apply_add_claim
apply-infer = refl

apply_refines_example :
    (((applied infer "claim:3").passed ≡ false) × (inferred_state ≡ clone premises_state))
    ⊎ (((applied infer "claim:3").passed ≡ true)
        × ((c : Call) × (inferred_state ≡ run (clone premises_state) c)))
apply_refines_example =
    apply_refines infer premises_state inferred_state (applied infer "claim:3") apply-infer

apply-IsWellFormed_example : IsWellFormed inferred_state
apply-IsWellFormed_example =
    apply-IsWellFormed infer premises_state inferred_state (applied infer "claim:3")
      premises-IsWellFormed apply-infer

-- An AddClaim whose qualifiers are a number
abbrev unreadable : Transition
unreadable = record {
  type = "AddClaim";
  args =
      ("subject", text "Socrates")
      ∷ ("relation", text "is_a")
      ∷ ("object", text "Mortal")
      ∷ ("qualifiers", num (finite 3 0 0) "3")
      ∷ [];
  description = "";
  expected_effect = "";
  source = "user";
}

unreadable_raises : apply unreadable premises_state ≡ raised
unfolding apply memory parse_action vcse.Transition.Validate.validate_add_claim vcse.Prelude.filterb
    vcse.Value.is_missing vcse.Memory.unknown_relation vcse.Memory.get_relation_schema
    vcse.Memory.Model.canonical_name vcse.Transition.Args.arg_str
    vcse.Transition.Apply.apply_add_claim
unreadable_raises = refl

apply_raises_example :
    (parse_action unreadable.type ≡ some add_claim_action)
    × (qualifiers_arg (get unreadable.args "qualifiers") ≡ none)
apply_raises_example = apply_raises unreadable premises_state unreadable_raises
