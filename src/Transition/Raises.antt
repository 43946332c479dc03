-- ===== src/Transition/Raises.antt =====
-- Which exceptions leave `Transition.apply` (src/vcse/transitions/state_transition.py).
use vcse.Prelude.{
  String, true, not, ◌≡◌, ◌≢◌, refl, ap, inl, inr, Option, none, some, List, [], ◌∷◌, arith,
  Bool-cases, string_eq, is_some, if◌then◌else◌,
}
use vcse.Dict.{get}
use vcse.Value.{TruthStatus}
use vcse.Memory.Model.{State, Made, made, value_error}
use vcse.Memory.{clone}
use vcse.Verifier.Base.{VerificationResult}
use vcse.Transition.Args.{
  Action, add_claim_action, add_constraint_action, update_truth_status_action, parse_action,
  Transition, Args, required, arg, truth_status_from_arg,
}
use vcse.Transition.Validate.{
  validate, validate_parsed, validate_action, validate_add_constraint, validate_update_truth_status,
  constraint_of, made_valid,
}
use vcse.Transition.Apply.{
  returned, raised, qualifiers_arg, claim_added, claim_status, claim_dependencies, apply_add_claim,
  constraint_added, apply_add_constraint, status_updated, apply_update_truth_status,
  apply_bind_symbol, apply_add_goal, apply_add_evidence, apply_record_contradiction, apply_action,
  run_applier, apply,
}

required_passed :
    (name : String) (names : List String) (args : Args) (rest : VerificationResult)
    → (required name names args rest).passed ≡ true
    → rest.passed ≡ true
unfolding required
required_passed name names args rest h = ground arith

-- The exception is one of reading the qualifiers of a claim.
abbrev BadQualifiers : Action → Transition → Type 0
BadQualifiers a t = (a ≡ add_claim_action) × (qualifiers_arg (get t.args "qualifiers") ≡ none)

module _ (t : Transition) (s : State) where
  claim_added_raised :
      (deps : List String) (st : TruthStatus) (q : Option (List (String × String)))
      → claim_added t s deps st q ≡ raised
      → q ≡ none
  unfolding claim_added
  claim_added_raised deps st none e = refl
  claim_added_raised deps st (some q) e = cc

  claim_status_raised :
      (deps : List String) (st : Option TruthStatus)
      → claim_status t s deps st ≡ raised
      → qualifiers_arg (get t.args "qualifiers") ≡ none
  unfolding claim_status
  claim_status_raised deps none e = cc
  claim_status_raised deps (some st) e = claim_added_raised deps st _ e

  claim_dependencies_raised :
      (deps : Option (List String))
      → claim_dependencies t s deps ≡ raised
      → qualifiers_arg (get t.args "qualifiers") ≡ none
  unfolding claim_dependencies
  claim_dependencies_raised none e = cc
  claim_dependencies_raised (some deps) e = claim_status_raised deps _ e

  constraint_added_raised :
      (m : Made) → (made_valid m).passed ≡ true → constraint_added t s m ≢ raised
  unfolding constraint_added
  constraint_added_raised (made c) h e = cc
  constraint_added_raised (value_error reason) h e = cc

  status_updated_raised :
      (id : String) (st : Option TruthStatus)
      → is_some st ≡ true
      → status_updated t s id st ≢ raised
  unfolding status_updated
  status_updated_raised id none h e = cc
  status_updated_raised id (some st) h e = cc

module _ (t : Transition) (s s' : State) where
  status_valid :
      (validate_update_truth_status t.args s).passed ≡ true
      → is_some (truth_status_from_arg (arg t.args "status")) ≡ true
  unfolding validate_update_truth_status
  status_valid h = ground arith

  constraint_valid :
      (validate_add_constraint t.args s).passed ≡ true
      → (made_valid (constraint_of t.args)).passed ≡ true
  unfolding validate_add_constraint
  constraint_valid h = ground (
    arith,
    required_passed "AddConstraint" ("kind" ∷ "target" ∷ "operator" ∷ "value" ∷ []) t.args
        (made_valid (constraint_of t.args)),
  )

  apply_action_raised :
      (a : Action)
      → (validate_action a t.args s).passed ≡ true
      → apply_action a t s' ≡ raised
      → BadQualifiers a t
  unfolding validate_action apply_action apply_add_claim apply_add_constraint
      apply_update_truth_status apply_bind_symbol apply_add_goal apply_add_evidence
      apply_record_contradiction
  apply_action_raised add_claim_action h e = (refl, claim_dependencies_raised t s' _ e)
  apply_action_raised add_constraint_action h e =
      absurd (constraint_added_raised t s' (constraint_of t.args) (constraint_valid h) e)
  apply_action_raised update_truth_status_action h e =
      absurd (status_updated_raised t s' _ _ (status_valid h) e)
  apply_action_raised _ h e = cc

  apply_parsed_raised :
      (o : Option Action)
      → (if not (validate_parsed t s o).passed
          then returned s' (validate_parsed t s o)
          else run_applier t s' o)
        ≡ raised
      → (o ≡ some add_claim_action) × (qualifiers_arg (get t.args "qualifiers") ≡ none)
  unfolding validate_parsed run_applier
  apply_parsed_raised none e = cc
  apply_parsed_raised (some a) e = elim (Bool-cases (validate_action a t.args s).passed) [
    | inl ok ↦ let (same, bad) = apply_action_raised a ok (rw ok at e) in (ap some same, bad)
    | inr refused ↦ cc (rw refused at e)
  ]

-- The only exception that leaves `apply` is that of an AddClaim whose qualifiers are neither a dict
-- nor false: no other transition, valid or not, raises.
pub apply_raises :
    (t : Transition) (s : State)
    → apply t s ≡ raised
    → (parse_action t.type ≡ some add_claim_action)
      × (qualifiers_arg (get t.args "qualifiers") ≡ none)
unfolding apply validate
apply_raises t s e = apply_parsed_raised t s (clone s) (parse_action t.type) e
