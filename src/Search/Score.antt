-- ===== src/Search/Score.antt =====
-- `BeamSearch._score` of src/vcse/search/beam.py.
use vcse.Prelude.{
  ℕ, Bool, not, Option, none, some, List, [], is_empty, any, is_some, if◌then◌else◌, string_eq,
}
use vcse.Dict.{values, has}
use vcse.Memory.Model.{State, Goal, Contradiction}
use vcse.Memory.{find_claim}
use vcse.Verifier.Final.{active_goal}
use vcse.Verifier.Goals.{is_constraint_goal}
use vcse.Search.Node.{Floats, SearchConfig}

module _ (f : Floats) where
  open f use {Float, is_zero, plus, minus, times, zero_float, of_depth, of_score}

  -- `goal_progress`
  unfoldable pub goal_progress : SearchConfig Float → State → Option Goal → Float
  goal_progress config s none = zero_float
  goal_progress config s (some g) =
      if is_some (find_claim s g.subject g.relation g.object [])
      then config.goal_progress_weight
      else if is_constraint_goal g
      then if has s.symbol_bindings g.subject then config.goal_progress_weight else zero_float
      else zero_float

  -- `any(state.contradictions.values())`
  unfoldable pub is_contradicted : State → Bool
  is_contradicted s = any (λ (cs : List Contradiction). not (is_empty cs)) (values s.contradictions)

  unfoldable pub score_state : SearchConfig Float → State → ℕ → Float → Float
  unfolding goal_progress is_contradicted
  score_state config s depth verifier_score =
      let progress = goal_progress config s (active_goal s) in
      let contradiction = if is_contradicted s then config.contradiction_penalty else zero_float in
      let uncertainty = if not (is_zero progress) then zero_float else config.uncertainty_penalty in
      minus
        (minus
          (minus (plus progress (times config.verifier_score_weight verifier_score)) contradiction)
          (times config.depth_penalty (of_depth depth)))
        uncertainty
