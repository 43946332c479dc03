-- ===== src/Tests/Verifier.antt =====
-- src/vcse/verifier at small inputs.
use vcse.Prelude.{String, List, [], ◌∷◌, true, false, none, some, ◌≡◌, ◌↔◌, refl, All, string_eq}
use vcse.Verifier
use vcse.Number.{Number, finite, gt, le_op, compare_numeric}
use vcse.Memory.Model.{State, Goal}
use vcse.Verifier.Constraints.Correct.{IsMet, constraints_pass_iff, constraints_pass_keeps}
use vcse.Verifier.Contradictions.{numeric_conflict_reason}
use vcse.Verifier.Contradictions.Bounds.{numeric_conflict_iff, numeric_conflict_sound}
use vcse.Verifier.Final.{Score, verified}
use vcse.Verifier.Final.Correct.{IsVerified, verified_iff}
use vcse.Tests.Samples.{
  solved_state, solved-IsWellFormed, bound_state, above_three, at_most_three, at_most_four,
}
use vcse.Tests.Memory.{memory}

-- The inferred claim is backed by its two premises.
claims_pass-solved_state : (Verifier.Claims.evaluate solved_state).passed ≡ true
unfolding Verifier.Claims.evaluate memory vcse.Memory.unknown_relation
    vcse.Memory.get_relation_schema vcse.Memory.Model.canonical_name
    vcse.Verifier.Claims.verify_dependency_support vcse.Memory.get_claim
    vcse.Verifier.Claims.verify_claim vcse.Verifier.Claims.premises
    vcse.Verifier.Claims.verify_links vcse.Verifier.Claims.links
claims_pass-solved_state = refl

constraints_pass_iff_example :
    ((Verifier.Constraints.evaluate bound_state).1.passed ≡ true)
    ↔ All (IsMet bound_state.symbol_bindings) bound_state.constraints
constraints_pass_iff_example = constraints_pass_iff bound_state

constraints_pass-bound_state : (Verifier.Constraints.evaluate bound_state).1.passed ≡ true
unfolding Verifier.Constraints.evaluate memory vcse.Verifier.Constraints.verify_from
    vcse.Memory.bind_symbol vcse.Memory.add_constraint vcse.Verifier.Constraints.proceed
    vcse.Verifier.Constraints.judge vcse.Value.as_number compare_numeric
    vcse.Verifier.Constraints.conclude
constraints_pass-bound_state = refl

constraints_pass_keeps_example : (Verifier.Constraints.evaluate bound_state).0 ≡ bound_state
constraints_pass_keeps_example = constraints_pass_keeps bound_state constraints_pass-bound_state

numeric_conflict_iff_example : (numeric_conflict_reason above_three at_most_four ≡ none) ↔ (
    (x : Number) × (compare_numeric x gt (finite 3 0 0) ≡ true)
    × (compare_numeric x le_op (finite 4 0 0) ≡ true))
unfolding vcse.Value.as_number
numeric_conflict_iff_example =
    numeric_conflict_iff above_three at_most_four (finite 3 0 0) (finite 4 0 0) refl refl refl refl
      refl refl

clash : numeric_conflict_reason above_three at_most_three ≡ some "x > 3 conflicts with x <= 3"
unfolding numeric_conflict_reason vcse.Verifier.Contradictions.turn vcse.Value.as_number
    vcse.Number.lt vcse.Number.equal vcse.Verifier.Contradictions.format_conflict
    vcse.Memory.Model.operator_text vcse.Value.str
clash = refl

four_above : compare_numeric (finite 4 0 0) gt (finite 3 0 0) ≡ true
unfolding compare_numeric
four_above = refl

numeric_conflict_sound_example : compare_numeric (finite 4 0 0) le_op (finite 3 0 0) ≡ false
unfolding vcse.Value.as_number
numeric_conflict_sound_example =
    numeric_conflict_sound above_three at_most_three (finite 3 0 0) (finite 3 0 0) (finite 4 0 0) _
      refl refl clash four_above

-- The score of a state that all verifiers pass
abbrev full : Score
full = record { tenths = 10; count = 1 }

verified-solved_state : (Verifier.Final.evaluate solved_state full).status ≡ verified
unfolding Verifier.Final.evaluate memory vcse.Verifier.Final.evaluate_goal
    vcse.Verifier.Final.evaluate_found vcse.Verifier.Final.evaluate_claim
    vcse.Memory.has_contradiction_on_path vcse.Prelude.any vcse.Memory.get_contradictions_for
    vcse.Verifier.Final.has_unsat_contradiction vcse.Verifier.Final.contradiction_reasons
    vcse.Verifier.Final.reasons_from vcse.Verifier.Final.conclude
verified-solved_state = refl

verified_iff_example :
    ((Verifier.Final.evaluate solved_state full).status ≡ verified)
    ↔ ((g : Goal) × IsVerified solved_state full g)
verified_iff_example = verified_iff solved_state full solved-IsWellFormed
