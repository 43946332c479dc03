-- ===== src/Verifier/Constraints.antt =====
-- `ConstraintVerifier` of src/vcse/verifier/constraint_verifier.py: it records the contradictions
-- that it finds in the state it judges, so the state comes back with the result.
pub mod Correct
use vcse.Prelude.{
  ℕ, suc, String, Bool, true, false, not, ◌==◌, string_eq, Option, none, some, List, [], ◌∷◌, ◌++◌,
  is_empty, if◌then◌else◌,
}
use vcse.Dict.{get}
use vcse.Number.{Number, compare_numeric}
use vcse.Value.{Value, str, as_number}
use vcse.Memory.Keys.{concat}
use vcse.Memory.Model.{State, Constraint, operator_text}
use vcse.Memory.{constraint_id_for_index, record_contradiction}
use vcse.Verifier.Base.{Reason, says, VerificationResult, pass_result, fail_result}
use vcse.Verifier.Claims.{or_default}

-- What the loop does with one constraint, for a state and the id of the constraint.
pub data Verdict : Type 0 where
  -- it is skipped or waits for a binding
  pending : (reason : String) → Verdict
  non_numeric satisfied : Verdict
  violated : (reason : String) → Verdict

abbrev pub compared : Constraint → Value → Option Number → Option Number → Verdict
compared c bound none right = non_numeric
compared c bound (some left) none = non_numeric
compared c bound (some left) (some right) =
    if compare_numeric left c.operator right
    then satisfied
    else violated (
        concat (
          c.target
          ∷ "="
          ∷ str bound
          ∷ " violates "
          ∷ c.target
          ∷ " "
          ∷ operator_text c.operator
          ∷ " "
          ∷ str c.value
          ∷ []))

abbrev pub bound_verdict : Constraint → Option Value → Verdict
bound_verdict c none = pending (concat ("No binding for " ∷ c.target ∷ "; constraint pending" ∷ []))
bound_verdict c (some bound) = compared c bound (as_number bound) (as_number c.value)

unfoldable pub judge : State → Constraint → String → Verdict
judge s c id =
    if not (c.kind == "numeric")
    then pending (concat ("Skipped non-numeric constraint " ∷ id ∷ []))
    else bound_verdict c (get s.symbol_bindings c.target)

-- `state.record_contradiction(constraint_id, reason, related_element_ids=[...], severity="unsat")`
unfoldable pub record_violation : State → Constraint → String → String → State
record_violation s c id reason =
    (record_contradiction s id reason (concat ("symbol:" ∷ c.target ∷ []) ∷ []) "unsat").0

-- The end of `evaluate`
unfoldable pub conclude : List Reason → List String → VerificationResult
conclude reasons [] =
    pass_result "CONSTRAINTS_VERIFIED" 10
      (or_default reasons "Constraints are satisfied or pending") []
conclude reasons (a ∷ affected) = fail_result "CONSTRAINTS_VIOLATED" reasons (a ∷ affected)

-- The body of the loop after the verdict on a constraint, with `next` for the rest of the loop
unfoldable pub proceed :
    State
    → Constraint
    → String
    → List Reason
    → List String
    → (State → List Reason → List String → State × VerificationResult)
    → Verdict
    → State × VerificationResult
proceed s c id reasons affected next (pending reason) =
    next s (reasons ++ says reason ∷ []) affected
proceed s c id reasons affected next satisfied = next s reasons affected
proceed s c id reasons affected next (violated reason) =
    next (record_violation s c id reason) (reasons ++ says reason ∷ []) (affected ++ id ∷ [])
proceed s c id reasons affected next non_numeric = (
  s,
  fail_result "CONSTRAINTS_VIOLATED"
      (says (concat (c.target ∷ " has non-numeric value for numeric constraint" ∷ [])) ∷ [])
      (id ∷ []),
)

-- The loop over `enumerate(state.constraints)` from position `index` on
unfoldable pub verify_from :
    ℕ → List Constraint → State → List Reason → List String → State × VerificationResult
verify_from index [] s reasons affected = (s, conclude reasons affected)
verify_from index (c ∷ cs) s reasons affected =
    let id = constraint_id_for_index index in
    proceed s c id reasons affected (verify_from (suc index) cs) (judge s c id)

-- `evaluate`
unfoldable pub evaluate : State → State × VerificationResult
evaluate s = verify_from 0 s.constraints s [] []
