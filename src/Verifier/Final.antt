-- ===== src/Verifier/Final.antt =====
-- `FinalStateEvaluation` and `FinalStateEvaluator` of src/vcse/verifier/final_state.py.
pub mod Quiet
pub mod Correct
use vcse.Prelude.{
  ℕ, ◌*◌, String, Bool, true, false, not, ◌&&◌, ◌||◌, ◌==◌, string_eq, Option, none, some, List, [],
  ◌∷◌, ◌++◌, is_empty, any, contains, first, length, ltb, if◌then◌else◌,
}
use vcse.Dict.{Dict, get, has, values}
use vcse.Value.{TruthStatus, status_value}
use vcse.Memory.Keys.{concat}
use vcse.Memory.Model.{State, Claim, Goal, Constraint, Contradiction, claim_text, goal_text}
use vcse.Memory.{find_claim, has_contradiction_on_path}
use vcse.Memory.Path.{dependency_path_for_claim, proof_trace_for_claim}
use vcse.Verifier.Contradictions.{is_final}
use vcse.Verifier.Goals.{is_constraint_goal}

-- A score as the verifier stack makes it: a sum of tenths over the number of verifiers.
pub record Score : Type 0 where
  pub tenths : ℕ
  pub count : ℕ

abbrev pub score_lt : Score → Score → Bool
score_lt a b = ltb (a.tenths * b.count) (b.tenths * a.count)

-- The default `verifier_threshold=0.7`
abbrev pub threshold : Score
threshold = record { tenths = 7; count = 1 }

pub data FinalStatus : Type 0 where
  verified inconclusive contradictory unsatisfiable : FinalStatus

pub data VerificationStatus : Type 0 where
  proved no_proof indeterminate unverified failed error : VerificationStatus

pub record FinalStateEvaluation : Type 0 where
  pub status : FinalStatus
  pub answer : Option String
  pub proof_trace : List String
  pub verification_status : VerificationStatus
  pub proof_count : ℕ
  pub reasons : List String
  pub verifier_score : Score

-- `_derive_verification_status`
unfoldable pub derive_verification_status :
    VerificationStatus → FinalStatus → (proof_count : ℕ) → VerificationStatus
derive_verification_status error st n = error
derive_verification_status indeterminate st n = indeterminate
derive_verification_status explicit contradictory n = failed
derive_verification_status explicit unsatisfiable n = failed
derive_verification_status explicit verified n = if ltb 0 n then proved else no_proof
derive_verification_status explicit inconclusive n = if ltb 0 n then indeterminate else no_proof

abbrev pub guarded_status : FinalStatus → List String → FinalStatus
guarded_status verified [] = inconclusive
guarded_status st trace = st

abbrev pub guarded_reasons : FinalStatus → List String → List String → List String
guarded_reasons verified [] reasons =
    if contains "NO_PROOF_TRACE_AVAILABLE" reasons
    then reasons
    else reasons ++ "NO_PROOF_TRACE_AVAILABLE" ∷ []
guarded_reasons st trace reasons = reasons

-- `FinalStateEvaluation(...)` with its `__post_init__`: nothing is VERIFIED without a proof trace.
unfoldable pub make_evaluation :
    FinalStatus
    → Option String
    → List String
    → VerificationStatus
    → List String
    → Score
    → FinalStateEvaluation
unfolding derive_verification_status contains
make_evaluation st answer trace explicit reasons score = record {
  status = guarded_status st trace;
  answer = answer;
  proof_trace = trace;
  verification_status =
      derive_verification_status explicit (guarded_status st trace) (length trace);
  proof_count = length trace;
  reasons = guarded_reasons st trace reasons;
  verifier_score = score;
}

-- An evaluation with the default `verification_status`, as the evaluator makes them
unfoldable pub conclude :
    FinalStatus → Option String → List String → List String → Score → FinalStateEvaluation
unfolding make_evaluation
conclude st answer trace reasons score = make_evaluation st answer trace unverified reasons score

-- The inner and the outer loop of `_contradiction_reasons`; `reasons` is also its set `seen`.
unfoldable pub reasons_of : List String → List Contradiction → List String
reasons_of reasons [] = reasons
reasons_of reasons (c ∷ cs) =
    reasons_of (if contains c.reason reasons then reasons else reasons ++ c.reason ∷ []) cs

unfoldable pub reasons_from : List String → List (List Contradiction) → List String
unfolding reasons_of
reasons_from reasons [] = reasons
reasons_from reasons (cs ∷ css) = reasons_from (reasons_of reasons cs) css

unfoldable pub contradiction_reasons : State → List String
contradiction_reasons s = reasons_from [] (values s.contradictions)

-- `_has_unsat_contradiction`
unfoldable pub has_unsat_contradiction : State → Bool
has_unsat_contradiction s =
    any (any (λ (c : Contradiction). c.severity == "unsat")) (values s.contradictions)

-- `reasons or [message]`
abbrev pub or_message : List String → String → List String
or_message [] message = message ∷ []
or_message (r ∷ rs) message = r ∷ rs

-- The verdict where contradictions alone decide, and `other` where there are none
abbrev pub without_claim :
    Bool
    → List String
    → Score
    → Option String
    → String
    → FinalStateEvaluation
    → FinalStateEvaluation
without_claim unsat reasons score answer message other =
    if unsat
    then conclude unsatisfiable answer [] (or_message reasons message) score
    else if not (is_empty reasons)
    then conclude contradictory answer [] reasons score
    else other

-- `_evaluate_constraint_goal`, for a goal that is one
unfoldable pub evaluate_constraint_goal : State → Score → Goal → FinalStateEvaluation
evaluate_constraint_goal s score goal =
    without_claim (has_unsat_contradiction s) (contradiction_reasons s) score
      (some (goal_text goal)) "Unsatisfiable constraints"
      (if score_lt score threshold
        then conclude inconclusive (some (goal_text goal)) []
            ("Verifier score below threshold" ∷ []) score
        else if not (has s.symbol_bindings goal.subject)
            || not (any (λ (c : Constraint). c.target == goal.subject) s.constraints)
        then conclude inconclusive (some (goal_text goal)) []
            (concat ("Goal not satisfied: " ∷ goal_text goal ∷ []) ∷ []) score
        else conclude verified (some (goal_text goal)) (goal_text goal ∷ [])
            ("Constraint goal satisfied" ∷ []) score)

-- The part of `evaluate` that has found the claim of the goal
unfoldable pub evaluate_claim : State → Score → Claim → FinalStateEvaluation
evaluate_claim s score c =
    let trace = proof_trace_for_claim s c.id in
    let reasons = contradiction_reasons s in
    let answer = some (claim_text c) in
    if has_contradiction_on_path s (dependency_path_for_claim s c.id)
    then conclude contradictory answer trace ("Contradiction touches proof path" ∷ []) score
    else if has_unsat_contradiction s
    then conclude unsatisfiable answer trace (or_message reasons "Unsatisfiable state") score
    else if not (is_empty reasons)
    then conclude contradictory answer trace reasons score
    else if score_lt score threshold
    then conclude inconclusive answer trace ("Verifier score below threshold" ∷ []) score
    else if not (is_final c.status)
    then conclude inconclusive answer trace
        (concat ("Goal claim has non-final truth status: " ∷ status_value c.status ∷ []) ∷ []) score
    else if is_empty trace
    then conclude inconclusive answer [] ("No proof trace available" ∷ []) score
    else conclude verified answer trace ("Goal satisfied with dependency trace" ∷ []) score

unfoldable pub evaluate_found : State → Score → Goal → Option Claim → FinalStateEvaluation
evaluate_found s score goal (some c) = evaluate_claim s score c
evaluate_found s score goal none =
    without_claim (has_unsat_contradiction s) (contradiction_reasons s) score none
      "Unsatisfiable state"
      (conclude inconclusive none [] (concat ("Goal not satisfied: " ∷ goal_text goal ∷ []) ∷ [])
        score)

unfoldable pub evaluate_goal : State → Score → Option Goal → FinalStateEvaluation
evaluate_goal s score none =
    without_claim (has_unsat_contradiction s) (contradiction_reasons s) score none
      "Unsatisfiable state" (conclude inconclusive none [] ("No active goal" ∷ []) score)
evaluate_goal s score (some goal) =
    if is_constraint_goal goal
    then evaluate_constraint_goal s score goal
    else evaluate_found s score goal (find_claim s goal.subject goal.relation goal.object [])

-- `state.goals[0]`, where there is one
abbrev pub active_goal : State → Option Goal
active_goal s = first s.goals

-- `evaluate`
unfoldable pub evaluate : State → Score → FinalStateEvaluation
evaluate s score = evaluate_goal s score (active_goal s)
