-- ===== src/Verifier/Goals.antt =====
-- `GoalSatisfactionChecker` of src/vcse/verifier/goal_checker.py.
use vcse.Prelude.{
  ℕ, suc, String, Bool, true, false, not, ◌&&◌, ◌==◌, string_eq, none, some, List, [], ◌∷◌, ◌++◌,
  is_empty, any, if◌then◌else◌,
}
use vcse.Memory.Keys.{concat}
use vcse.Memory.Model.{State, Goal, Constraint, goal_text}
use vcse.Memory.{find_claim, get_contradictions_for, constraint_id_for_index}
use vcse.Verifier.Base.{says, VerificationResult, pass_result}
use vcse.Verifier.Contradictions.{is_final}

-- Some constraint on `target`, from position `index` on, has a contradiction.
unfoldable pub contradicted_from : State → String → ℕ → List Constraint → Bool
contradicted_from s target index [] = false
contradicted_from s target index (c ∷ cs) =
    let rest = contradicted_from s target (suc index) cs in
    if c.target == target
      && not (is_empty (get_contradictions_for s (constraint_id_for_index index)))
    then true
    else rest

-- `_constraints_satisfied_for_target`
unfoldable pub constraints_satisfied_for_target : State → String → Bool
constraints_satisfied_for_target s target =
    if not (any (λ (c : Constraint). c.target == target) s.constraints)
    then false
    else not (contradicted_from s target 0 s.constraints)

-- `goal.relation == "satisfies" and goal.object == "constraints"`
abbrev pub is_constraint_goal : Goal → Bool
is_constraint_goal g = g.relation == "satisfies" && g.object == "constraints"

unfoldable pub goal_satisfied : State → Goal → Bool
goal_satisfied s g =
    if is_constraint_goal g
    then constraints_satisfied_for_target s g.subject
    else elim (find_claim s g.subject g.relation g.object []) [
      | none ↦ false
      | some c ↦ is_final c.status
    ]

-- The ids of the goals that are satisfied, and of those that are not
unfoldable pub goal_ids : (Goal → Bool) → List Goal → List String
goal_ids p [] = []
goal_ids p (g ∷ gs) = let rest = goal_ids p gs in if p g then g.id ∷ rest else rest

unfoldable pub goals_result : Goal → List String → List String → VerificationResult
goals_result g satisfied unmet =
    if not (is_empty unmet) && is_empty satisfied
    then pass_result "GOAL_UNMET" 4 (says (concat ("Goal not satisfied: " ∷ goal_text g ∷ [])) ∷ [])
        unmet
    else if not (is_empty unmet)
    then pass_result "GOALS_PARTIALLY_SATISFIED" 7 (says "Some goals are unsatisfied" ∷ [])
        (satisfied ++ unmet)
    else pass_result "GOALS_SATISFIED" 10 (says "Goals are satisfied" ∷ []) satisfied

unfoldable pub evaluate_goals : State → List Goal → VerificationResult
evaluate_goals s [] = pass_result "NO_GOAL" 8 (says "No active goal" ∷ []) []
evaluate_goals s (g ∷ gs) =
    goals_result g (goal_ids (goal_satisfied s) (g ∷ gs))
      (goal_ids (λ h. not (goal_satisfied s h)) (g ∷ gs))

-- `evaluate`
unfoldable pub evaluate : State → VerificationResult
evaluate s = evaluate_goals s s.goals
