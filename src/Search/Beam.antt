-- ===== src/Search/Beam.antt =====
-- `BeamSearch` of src/vcse/search/beam.py, with `enable_ts3` off.
pub mod Derived
pub mod Expand
pub mod Levels
pub mod Correct
use vcse.Prelude.{
  ℕ, zero, suc, ◌+◌, Bool, true, false, not, ◌||◌, Option, none, some, List, [], ◌∷◌, ◌++◌, length,
  take, leb, is_empty, if◌then◌else◌,
}
use vcse.Memory.Model.{State, Goal}
use vcse.Memory.{clone}
use vcse.Transition.Args.{Transition}
use vcse.Transition.Apply.{apply, returned, raised, Outcome as Applied}
use vcse.Verifier.Final.{
  Score, FinalStatus, verified, contradictory, unsatisfiable, FinalStateEvaluation, active_goal,
  evaluate as evaluate_final,
}
use vcse.Verifier.Stack.{VerifierStackResult, evaluate as evaluate_stack}
use vcse.Search.Node.{
  Floats, SearchNode, SearchConfig, Counts, SearchStats, SearchResult, reached, widened,
}
use vcse.Search.Steps.{
  Step, go, found, crashed, Children, Level, Position, Outcome, result, exception, out_of_fuel,
}
use vcse.Search.Score.{score_state}

abbrev pub is_verified : FinalStatus → Bool
is_verified verified = true
is_verified _ = false

-- `status in {CONTRADICTORY, UNSATISFIABLE}`
abbrev pub is_failed : FinalStatus → Bool
is_failed contradictory = true
is_failed unsatisfiable = true
is_failed _ = false

module _ (f : Floats) (config : SearchConfig (f.Float))
    (propose : State → Option Goal → List Transition) where
  open f use {Float, less, of_score}

  abbrev pub child_of :
      SearchNode Float → Transition → State → VerifierStackResult → FinalStatus → SearchNode Float
  child_of node t s stack status = record {
    state = s;
    transition_history = node.transition_history ++ t ∷ [];
    score = score_state f config s (node.depth + 1) (of_score stack.score);
    depth = node.depth + 1;
    terminal_status = some status;
  }

  -- The node once its state is evaluated
  abbrev pub rescored :
      SearchNode Float → State → VerifierStackResult → FinalStatus → SearchNode Float
  rescored n s stack status = record {
    state = s;
    transition_history = n.transition_history;
    score = score_state f config s n.depth (of_score stack.score);
    depth = n.depth;
    terminal_status = some status;
  }

  -- The part of the inner loop that has the evaluated state of a child
  unfoldable pub admit :
      SearchNode Float
      → Transition
      → State × VerifierStackResult
      → Children Float
      → (Children Float → Step Float (Children Float))
      → Step Float (Children Float)
  admit node t (s, stack) acc next =
      let final = evaluate_final s stack.score in
      let child = child_of node t s stack final.status in
      let counts = reached (node.depth + 1) acc.counts in
      if not stack.passed
        || is_failed final.status
        || less (of_score stack.score) config.verifier_score_threshold
      then next acc
      else if is_verified final.status
      then found child final counts
      else next (record { counts = counts; next_frontier = acc.next_frontier ++ child ∷ [] })

  unfoldable pub expand_with :
      SearchNode Float
      → Transition
      → Applied
      → Children Float
      → (Children Float → Step Float (Children Float))
      → Step Float (Children Float)
  expand_with node t raised acc next = crashed
  expand_with node t (returned s r) acc next =
      if not r.passed then next acc else admit node t (evaluate_stack s) acc next

  abbrev pub counted : Children Float → Children Float
  counted acc = record acc {
    counts = record acc.counts { nodes_expanded = acc.counts.nodes_expanded + 1 };
  }

  -- `for transition in proposals`
  unfoldable pub expand_each :
      SearchNode Float → List Transition → Children Float → Step Float (Children Float)
  expand_each node [] acc = go acc
  expand_each node (t ∷ ts) acc =
      if leb config.max_nodes_expanded acc.counts.nodes_expanded
      then go acc
      else expand_with node t (apply t node.state) (counted acc) (expand_each node ts)

  abbrev pub resume :
      Level Float
      → Step Float (Children Float)
      → (Level Float → Step Float (Level Float))
      → Step Float (Level Float)
  resume l (go children) next = next (record l { children = children })
  resume l (found n final counts) next = found n final counts
  resume l crashed next = crashed

  -- The part of the loop over the frontier that has the evaluated state of the node
  unfoldable pub visit_evaluated :
      SearchNode Float
      → State × VerifierStackResult
      → Level Float
      → (Level Float → Step Float (Level Float))
      → Step Float (Level Float)
  visit_evaluated n (s, stack) l next =
      let final = evaluate_final s stack.score in
      let node = rescored n s stack final.status in
      let better = l.shared || less l.best.score node.score || is_verified final.status in
      let l' : Level Float = record {
        best = if better then node else l.best;
        shared = false;
        children = record l.children { counts = reached n.depth l.children.counts };
      } in
      if is_verified final.status
      then found node final l'.children.counts
      else if is_failed final.status || leb config.max_depth n.depth
      then next l'
      else resume l' (expand_each node (propose s (active_goal s)) l'.children) next

  -- `for node in frontier`
  unfoldable pub visit_frontier : List (SearchNode Float) → Level Float → Step Float (Level Float)
  visit_frontier [] l = go l
  visit_frontier (n ∷ ns) l = visit_evaluated n (evaluate_stack n.state) l (visit_frontier ns)

  -- `next_frontier.sort(key=lambda item: item.score, reverse=True)`, a stable sort
  unfoldable pub insert_node : SearchNode Float → List (SearchNode Float) → List (SearchNode Float)
  insert_node n [] = n ∷ []
  insert_node n (m ∷ ms) =
      let rest = insert_node n ms in if less n.score m.score then m ∷ rest else n ∷ m ∷ ms

  unfoldable pub sort_nodes : List (SearchNode Float) → List (SearchNode Float)
  unfolding insert_node
  sort_nodes [] = []
  sort_nodes (n ∷ ns) = insert_node n (sort_nodes ns)

  -- `if frontier and frontier[0].score > best.score`
  unfoldable pub choose_best : List (SearchNode Float) → SearchNode Float → Counts → Position Float
  choose_best [] best counts = record {
    frontier = [];
    best = best;
    shared = false;
    counts = counts;
  }
  choose_best (n ∷ ns) best counts =
      let head : SearchNode Float = record n { state = (evaluate_stack n.state).0 } in
      if less best.score n.score
      then record { frontier = head ∷ ns; best = head; shared = true; counts = counts }
      else record { frontier = n ∷ ns; best = best; shared = false; counts = counts }

  -- What follows the loop over the frontier
  unfoldable pub close_level : Level Float → Position Float
  unfolding choose_best sort_nodes
  close_level l =
      let frontier = take config.beam_width (sort_nodes l.children.next_frontier) in
      choose_best frontier l.best (widened (length frontier) l.children.counts)

  -- `_result`
  unfoldable pub make_result : SearchNode Float → FinalStateEvaluation → Counts → SearchResult Float
  make_result best evaluation counts = record {
    best_node = best;
    evaluation = evaluation;
    stats = record {
      nodes_expanded = counts.nodes_expanded;
      max_depth_reached = counts.max_depth_reached;
      terminal_status = evaluation.status;
      best_score = best.score;
      max_frontier_size = counts.max_frontier_size;
    };
  }

  -- The end of `run`
  unfoldable pub finish : Position Float → Outcome Float
  unfolding make_result
  finish p =
      let (s, stack) = evaluate_stack p.best.state in
      let final = evaluate_final s stack.score in
      result (
        make_result (record p.best { state = s; terminal_status = some final.status }) final
          p.counts)

  abbrev pub open_level : Position Float → Level Float
  open_level p = record {
    best = p.best;
    shared = p.shared;
    children = record { counts = widened (length p.frontier) p.counts; next_frontier = [] };
  }

  abbrev pub continue : (Position Float → Outcome Float) → Step Float (Level Float) → Outcome Float
  continue next (go l) = next (close_level l)
  continue next (found n final counts) = result (make_result n final counts)
  continue next crashed = exception

  -- `while frontier and self.nodes_expanded < self.config.max_nodes_expanded`, by fuel
  unfoldable pub loop : ℕ → Position Float → Outcome Float
  loop zero p = out_of_fuel
  loop (suc fuel) p =
      if is_empty p.frontier || leb config.max_nodes_expanded p.counts.nodes_expanded
      then finish p
      else continue (loop fuel) (visit_frontier p.frontier (open_level p))

  unfoldable pub start : State → Position Float
  start s =
      let root : SearchNode Float = record {
        state = clone s;
        transition_history = [];
        score = score_state f config s 0 (of_score (record { tenths = 10; count = 1 }));
        depth = 0;
        terminal_status = none;
      } in
      record {
        frontier = root ∷ [];
        best = root;
        shared = true;
        counts = record { nodes_expanded = 0; max_depth_reached = 0; max_frontier_size = 1 };
      }

  -- `run`. A pass of the loop takes the frontier one level down, so two passes more than there are
  -- levels are enough (Search/Beam/Correct).
  unfoldable pub run : State → Outcome Float
  unfolding loop start
  run s = loop (config.max_depth + 2) (start s)
