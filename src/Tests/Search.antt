-- ===== src/Tests/Search.antt =====
-- src/vcse/search at small inputs.
use vcse.Prelude.{
  ℕ, ◌+◌, ◌-◌, ◌*◌, String, Bool, List, [], ◌∷◌, true, false, none, some, Option, ◌≡◌, ◌≢◌, refl,
  ltb, leb,
}
use vcse.Memory.Model.{State, Goal}
use vcse.Verifier.Final.{Score, FinalStateEvaluation, verified, VerificationStatus, unverified}
use vcse.Verifier.Final.Correct.{IsVerified}
use vcse.Verifier
use vcse.Verifier.Stack.Writes.{SameBut, stack_invents_nothing}
use vcse.Transition.Args.{Transition}
use vcse.Search.Node.{Floats, SearchConfig, SearchResult}
use vcse.Search.Steps.{Outcome, result, out_of_fuel}
use vcse.Search.Beam.{run}
use vcse.Search.Beam.Derived.{Derived}
use vcse.Search.Beam.Correct.{IsSound, run_terminates, run-IsSound, run_verified}
use vcse.Tests.Samples.{infer, premises_state, solved_state, premises-IsWellFormed}
use vcse.Tests.Memory.{memory}

-- Thousandths, offset so that nothing is negative
abbrev thousandths : Floats
thousandths = record {
  Float = ℕ;
  less = ltb;
  is_zero = λ n. leb n 0;
  plus = λ a b. a + b;
  minus = λ a b. a - b;
  times = λ a b. a * b;
  zero_float = 0;
  of_depth = λ n. n;
  of_score = λ s. s.tenths * 100;
}

abbrev settings : SearchConfig ℕ
settings = record {
  max_depth = 6;
  beam_width = 4;
  max_nodes_expanded = 500;
  verifier_score_threshold = 0;
  goal_progress_weight = 2000;
  verifier_score_weight = 1;
  contradiction_penalty = 5000;
  depth_penalty = 100;
  uncertainty_penalty = 500;
}

abbrev proposals : State → Option Goal → List Transition
proposals s goal = infer ∷ []

abbrev result_of : Outcome ℕ → SearchResult ℕ → SearchResult ℕ
result_of (result r) other = r
result_of _ other = other

abbrev answer : SearchResult ℕ
answer = result_of (run thousandths settings proposals premises_state) (record {
  best_node = record {
    state = premises_state;
    transition_history = [];
    score = 0;
    depth = 0;
    terminal_status = none;
  };
  evaluation = record {
    status = verified;
    answer = none;
    proof_trace = [];
    verification_status = unverified;
    proof_count = 0;
    reasons = [];
    verifier_score = record { tenths = 0; count = 1 };
  };
  stats = record {
    nodes_expanded = 0;
    max_depth_reached = 0;
    terminal_status = verified;
    best_score = 0;
    max_frontier_size = 0;
  };
})

-- The definitions that a search goes through
unfoldable pub searching : Unit {0}
unfolding vcse.Verifier.Claims.premises vcse.Verifier.Claims.links vcse.Verifier.Claims.verify_links
    vcse.Verifier.Claims.missing_dependencies vcse.Verifier.Claims.verify_present
    vcse.Verifier.Claims.verify_claim vcse.Verifier.Claims.verify_dependency_support
    vcse.Verifier.Claims.verify_each vcse.Verifier.Claims.evaluate vcse.Verifier.Constraints.judge
    vcse.Verifier.Constraints.record_violation vcse.Verifier.Constraints.conclude
    vcse.Verifier.Constraints.proceed vcse.Verifier.Constraints.verify_from
    vcse.Verifier.Constraints.evaluate vcse.Verifier.Contradictions.conflict
    vcse.Verifier.Contradictions.group_equals vcse.Verifier.Contradictions.against_seen
    vcse.Verifier.Contradictions.equality_entries vcse.Verifier.Contradictions.equality_groups
    vcse.Verifier.Contradictions.detect_equality_conflicts
    vcse.Verifier.Contradictions.format_conflict vcse.Verifier.Contradictions.turn
    vcse.Verifier.Contradictions.numeric_conflict_reason vcse.Verifier.Contradictions.against_rest
    vcse.Verifier.Contradictions.numeric_pairs vcse.Verifier.Contradictions.numeric_groups
    vcse.Verifier.Contradictions.group_targets
    vcse.Verifier.Contradictions.detect_numeric_constraint_conflicts
    vcse.Verifier.Contradictions.detection_result vcse.Verifier.Contradictions.evaluate
    vcse.Verifier.Goals.contradicted_from vcse.Verifier.Goals.constraints_satisfied_for_target
    vcse.Verifier.Goals.goal_satisfied vcse.Verifier.Goals.goal_ids vcse.Verifier.Goals.goals_result
    vcse.Verifier.Goals.evaluate_goals vcse.Verifier.Goals.evaluate
    vcse.Verifier.Final.derive_verification_status vcse.Verifier.Final.make_evaluation
    vcse.Verifier.Final.conclude vcse.Verifier.Final.reasons_of vcse.Verifier.Final.reasons_from
    vcse.Verifier.Final.contradiction_reasons vcse.Verifier.Final.has_unsat_contradiction
    vcse.Verifier.Final.evaluate_constraint_goal vcse.Verifier.Final.evaluate_claim
    vcse.Verifier.Final.evaluate_found vcse.Verifier.Final.evaluate_goal
    vcse.Verifier.Final.evaluate vcse.Verifier.Stack.combine vcse.Verifier.Stack.evaluate
    vcse.Transition.Args.parse_action vcse.Transition.Args.missing_required
    vcse.Transition.Args.required vcse.Transition.Args.arg_str vcse.Transition.Args.arg
    vcse.Transition.Args.arg_str_or vcse.Transition.Args.parse_status
    vcse.Transition.Args.truth_status_from_arg vcse.Transition.Validate.validate_add_claim
    vcse.Transition.Validate.constraint_of vcse.Transition.Validate.validate_add_constraint
    vcse.Transition.Validate.validate_update_truth_status
    vcse.Transition.Validate.validate_bind_symbol vcse.Transition.Validate.validate_add_goal
    vcse.Transition.Validate.validate_add_evidence
    vcse.Transition.Validate.validate_record_contradiction vcse.Transition.Validate.validate_action
    vcse.Transition.Validate.validate_parsed vcse.Transition.Validate.validate
    vcse.Transition.Apply.applied vcse.Transition.Apply.dependencies_arg
    vcse.Transition.Apply.status_arg vcse.Transition.Apply.qualifiers_arg
    vcse.Transition.Apply.claim_added vcse.Transition.Apply.claim_status
    vcse.Transition.Apply.claim_dependencies vcse.Transition.Apply.apply_add_claim
    vcse.Transition.Apply.constraint_added vcse.Transition.Apply.apply_add_constraint
    vcse.Transition.Apply.status_updated vcse.Transition.Apply.apply_update_truth_status
    vcse.Transition.Apply.apply_bind_symbol vcse.Transition.Apply.apply_add_goal
    vcse.Transition.Apply.apply_add_evidence vcse.Transition.Apply.apply_record_contradiction
    vcse.Transition.Apply.apply_action vcse.Transition.Apply.run_applier vcse.Transition.Apply.apply
    vcse.Search.Score.goal_progress vcse.Search.Score.is_contradicted vcse.Search.Score.score_state
    vcse.Search.Beam.admit vcse.Search.Beam.expand_with vcse.Search.Beam.expand_each
    vcse.Search.Beam.visit_evaluated vcse.Search.Beam.visit_frontier vcse.Search.Beam.insert_node
    vcse.Search.Beam.sort_nodes vcse.Search.Beam.choose_best vcse.Search.Beam.close_level
    vcse.Search.Beam.make_result vcse.Search.Beam.finish vcse.Search.Beam.loop
    vcse.Search.Beam.start vcse.Search.Beam.run vcse.Memory.clone vcse.Memory.add_relation_schema
    vcse.Memory.get_relation_schema vcse.Memory.unknown_relation vcse.Memory.claim_id
    vcse.Memory.new_claim vcse.Memory.insert_claim vcse.Memory.add_claim_at vcse.Memory.add_claim
    vcse.Memory.get_claim vcse.Memory.find_claim vcse.Memory.add_goal vcse.Memory.add_constraint
    vcse.Memory.constraint_id_for_index vcse.Memory.update_truth_status vcse.Memory.bind_symbol
    vcse.Memory.add_evidence vcse.Memory.append_contradiction vcse.Memory.append_all
    vcse.Memory.record_contradiction vcse.Memory.get_contradictions_for
    vcse.Memory.has_contradiction_on_path vcse.Value.status_value vcse.Value.status_str
    vcse.Value.str vcse.Value.as_number vcse.Value.is_missing vcse.Number.lt vcse.Number.equal
    vcse.Number.le vcse.Number.compare_numeric vcse.Memory.Model.canonical_name
    vcse.Memory.Model.operator_text vcse.Prelude.any vcse.Prelude.filterb memory
searching = tt

answers : run thousandths settings proposals premises_state ≡ result answer
unfolding searching
answers = refl

answer_verified : answer.evaluation.status ≡ verified
unfolding searching
answer_verified = refl

-- The search finds the answer in one expansion.
one_expansion : answer.stats.nodes_expanded ≡ 1
unfolding searching
one_expansion = refl

run_terminates_example : run thousandths settings proposals premises_state ≢ out_of_fuel
run_terminates_example = run_terminates thousandths settings proposals premises_state

run-IsSound_example : IsSound thousandths settings proposals premises_state answer
run-IsSound_example = run-IsSound thousandths settings proposals premises_state answer answers

run_verified_example :
    (before : State) × Derived premises_state answer.best_node.transition_history before
    × ((Verifier.Stack.evaluate before).0 ≡ answer.best_node.state)
    × ((g : Goal) × IsVerified answer.best_node.state (Verifier.Stack.evaluate before).1.score g)
run_verified_example =
    run_verified thousandths settings proposals premises_state answer premises-IsWellFormed answers
      answer_verified

stack_invents_nothing_example : SameBut solved_state (Verifier.Stack.evaluate solved_state).0
stack_invents_nothing_example = stack_invents_nothing solved_state
