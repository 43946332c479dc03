-- ===== src/Search/Beam/Correct.antt =====
-- What the beam search (src/vcse/search/beam.py) returns.
use vcse.Prelude.{
  ℕ, zero, suc, ◌+◌, ◌≤◌, Bool, true, false, ◌||◌, ◌≡◌, ◌≢◌, refl, sym, ap, ◌∙◌, Option, List,
  length, leb, arith, if◌then◌else◌, is_empty, subst,
}
use vcse.Memory.Model.{State, Goal}
use vcse.Memory.Claims.{IsWellFormed}
use vcse.Verifier.Final.{FinalStateEvaluation, verified}
use vcse.Verifier.Final.Correct.{IsVerified, verified_iff}
use vcse.Verifier.Stack.{evaluate as evaluate_stack}
use vcse.Transition.Args.{Transition}
use vcse.Search.Node.{Floats, SearchNode, SearchConfig, SearchResult, Counts}
use vcse.Search.Steps.{
  Step, go, found, crashed, Level, Position, Outcome, result, exception, out_of_fuel,
}
use vcse.Search.Beam.{finish, loop, start, run, continue, open_level, make_result, visit_frontier}
use vcse.Search.Beam.Derived.{Derived, IsEvaluation, origin, evaluated, Derived-IsWellFormed}
use vcse.Search.Beam.Levels.{
  GoodNode, FitsLevel, IsPosition, visit_frontier-Fits, close_level-IsPosition,
}

module _ (f : Floats) (config : SearchConfig (f.Float))
    (propose : State → Option Goal → List Transition) where
  -- The best node is one that transitions lead to, no deeper than the bound, the evaluation is that
  -- of its state, and the count of expanded nodes is within the bound.
  pub record IsSound (s : State) (r : SearchResult f.Float) : Type 0 where
    pub derived : Derived s r.best_node.transition_history r.best_node.state
    pub depth_counts : r.best_node.depth ≡ length r.best_node.transition_history
    pub depth_bounded : r.best_node.depth ≤ config.max_depth
    pub evaluation : IsEvaluation s r.best_node.transition_history r.best_node.state r.evaluation
    pub nodes_bounded : r.stats.nodes_expanded ≤ config.max_nodes_expanded

  abbrev Settles : State → Outcome f.Float → Type 0
  Settles s (result r) = IsSound s r
  Settles s exception = Unit {0}
  Settles s out_of_fuel = ⊥

  module _ (s : State) where
    returnable-IsSound :
        (n : SearchNode f.Float) (final : FinalStateEvaluation) (c : Counts)
        → GoodNode f config propose s n
        → IsEvaluation s n.transition_history n.state final
        → (c.nodes_expanded ≤ config.max_nodes_expanded)
        → IsSound s (make_result f config propose n final c)
    unfolding make_result
    returnable-IsSound n final c g e bound = record {
      derived = g.derived;
      depth_counts = g.counted;
      depth_bounded = g.within;
      evaluation = e;
      nodes_bounded = bound;
    }

    finish-Settles :
        (d : ℕ) (p : Position f.Float)
        → IsPosition f config propose s d p
        → Settles s (finish f config propose p)
    unfolding finish make_result
    finish-Settles d p h = record {
      derived = evaluated h.best.derived;
      depth_counts = h.best.counted;
      depth_bounded = h.best.within;
      evaluation = record {
        before = p.best.state;
        derived = h.best.derived;
        is_evaluated = refl;
        is_final = refl;
      };
      nodes_bounded = h.bounded;
    }

    continue-Settles :
        (d : ℕ) (next : Position f.Float → Outcome f.Float)
        → ((p : Position f.Float) → IsPosition f config propose s (d + 1) p → Settles s (next p))
        → (x : Step f.Float (Level f.Float)) → FitsLevel f config propose s d x
        → Settles s (continue f config propose next x)
    continue-Settles d next go_on (go l) h =
        go_on _ (close_level-IsPosition f config propose s d l h)
    continue-Settles d next go_on (found n final c) (g, e, bound) =
        returnable-IsSound n final c g e bound
    continue-Settles d next go_on crashed h = tt

    choice-Settles :
        (b : Bool) (x y : Outcome f.Float)
        → Settles s x
        → (b ≡ false → Settles s y)
        → Settles s (if b then x else y)
    choice-Settles true x y p q = p
    choice-Settles false x y p q = q refl

    -- Fuel for two passes more than there are levels left is enough.
    loop-Settles :
        (fuel d : ℕ) (p : Position f.Float)
        → (config.max_depth + 2 ≤ fuel + d)
        → (d ≤ config.max_depth + 1)
        → IsPosition f config propose s d p
        → Settles s (loop f config propose fuel p)
    unfolding loop
    loop-Settles zero d p enough within h = absurd (omega arith)
    loop-Settles (suc fuel) d p enough within h =
        choice-Settles
          (is_empty p.frontier || leb config.max_nodes_expanded p.counts.nodes_expanded)
          (finish f config propose p)
          (continue f config propose (loop f config propose fuel)
            (visit_frontier f config propose p.frontier (open_level f config propose p)))
          (finish-Settles d p h)
          (λ more.
            let inside : d ≤ config.max_depth = level_inside more in
            continue-Settles d (loop f config propose fuel)
              (λ q k. loop-Settles fuel (d + 1) q (omega arith) (omega arith) k)
              (visit_frontier f config propose p.frontier (open_level f config propose p))
              (visit_frontier-Fits f config propose s d p.frontier h.frontier
                (open_level f config propose p)
                (record { best = h.best; children = tt; bounded = h.bounded; last = λ _. refl })))
      where
        level_inside :
            (is_empty p.frontier || leb config.max_nodes_expanded p.counts.nodes_expanded) ≡ false
            → d ≤ config.max_depth
        level_inside more = ground (arith, h.last)

    start-IsPosition : IsPosition f config propose s 0 (start f config propose s)
    unfolding start
    start-IsPosition = record {
      best = root;
      frontier = ((root, refl), tt);
      bounded = omega arith;
      last = λ deep. absurd (omega arith);
    }
      where
        root : GoodNode f config propose s (start f config propose s).best
        root = record { derived = origin; counted = refl; within = omega arith }

    run-Settles : Settles s (run f config propose s)
    unfolding run
    run-Settles =
        loop-Settles (config.max_depth + 2) 0 (start f config propose s) (omega arith) (omega arith)
          start-IsPosition

  -- The search ends, whatever the proposer proposes: two passes more than max_depth are enough.
  pub run_terminates : (s : State) → run f config propose s ≢ out_of_fuel
  run_terminates s e = subst (Settles s) e (run-Settles s)

  -- Whatever the proposer proposes, the best node of a result is one that its transitions, each of
  -- which passes, lead to from a clone of the initial state, it is no deeper than max_depth, its depth
  -- counts its transitions, the evaluation is that of its state with the score that the verifier stack
  -- gives it, and no more than max_nodes_expanded proposals are expanded.
  pub run-IsSound :
      (s : State) (r : SearchResult f.Float) → run f config propose s ≡ result r → IsSound s r
  run-IsSound s r e = subst (Settles s) e (run-Settles s)

  -- From a well-formed state, a search whose evaluation is VERIFIED returns a state in which the
  -- active goal holds, no element has a contradiction and the score that the verifier stack gives
  -- reaches the threshold, where the stack evaluates a state that the transitions of the best node
  -- lead to.
  pub run_verified :
      (s : State) (r : SearchResult f.Float)
      → IsWellFormed s
      → run f config propose s ≡ result r
      → r.evaluation.status ≡ verified
      → (before : State) × Derived s r.best_node.transition_history before
        × ((evaluate_stack before).0 ≡ r.best_node.state)
        × ((g : Goal) × IsVerified r.best_node.state (evaluate_stack before).1.score g)
  run_verified s r w e v =
      let sound = run-IsSound s r e in
      let final = sound.evaluation in
      (
        final.before,
        final.derived,
        final.is_evaluated,
        (verified_iff r.best_node.state (evaluate_stack final.before).1.score (
              Derived-IsWellFormed s w r.best_node.transition_history r.best_node.state
                sound.derived)).0
            (sym (ap (λ x. x.status) final.is_final) ∙ v),
      )
