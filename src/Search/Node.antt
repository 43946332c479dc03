-- ===== src/Search/Node.antt =====
-- `SearchNode`, `SearchConfig` and `SearchResult` of src/vcse/search, for a search with `enable_ts3`
-- off, its default. The signatures of a node and the settings of other backends are not read then.
use vcse.Prelude.{ℕ, Bool, Option, List, if◌then◌else◌, ltb}
use vcse.Memory.Model.{State}
use vcse.Transition.Args.{Transition}
use vcse.Verifier.Final.{Score, FinalStatus, FinalStateEvaluation}

-- Python's floats, as the search uses them
pub record Floats : Type 1 where
  pub Float : Type 0
  pub less : Float → Float → Bool
  pub is_zero : Float → Bool
  pub plus : Float → Float → Float
  pub minus : Float → Float → Float
  pub times : Float → Float → Float
  pub zero_float : Float
  pub of_depth : ℕ → Float
  pub of_score : Score → Float

pub record SearchNode (F : Type 0) : Type 0 where
  pub state : State
  pub transition_history : List Transition
  pub score : F
  pub depth : ℕ
  pub terminal_status : Option FinalStatus

-- `__post_init__` of the code refuses a negative depth or node count.
pub record SearchConfig (F : Type 0) : Type 0 where
  pub max_depth : ℕ
  pub beam_width : ℕ
  pub max_nodes_expanded : ℕ
  pub verifier_score_threshold : F
  pub goal_progress_weight : F
  pub verifier_score_weight : F
  pub contradiction_penalty : F
  pub depth_penalty : F
  pub uncertainty_penalty : F

-- The counters that a search keeps
pub record Counts : Type 0 where
  pub nodes_expanded : ℕ
  pub max_depth_reached : ℕ
  pub max_frontier_size : ℕ

pub record SearchStats (F : Type 0) : Type 0 where
  pub nodes_expanded : ℕ
  pub max_depth_reached : ℕ
  pub terminal_status : FinalStatus
  pub best_score : F
  pub max_frontier_size : ℕ

pub record SearchResult (F : Type 0) : Type 0 where
  pub best_node : SearchNode F
  pub evaluation : FinalStateEvaluation
  pub stats : SearchStats F

abbrev pub larger : ℕ → ℕ → ℕ
larger a b = if ltb a b then b else a

-- `self.max_depth_reached = max(self.max_depth_reached, depth)`
abbrev pub reached : ℕ → Counts → Counts
reached depth c = record c { max_depth_reached = larger c.max_depth_reached depth }

abbrev pub widened : ℕ → Counts → Counts
widened size c = record c { max_frontier_size = larger c.max_frontier_size size }
