-- ===== src/Search/Beam/Levels.antt =====
-- The loop over the frontier (src/vcse/search/beam.py): what holds of a level of the search.
use vcse.Prelude.{
  ℕ, zero, suc, ◌+◌, ◌≤◌, ◌<◌, Bool, true, false, ◌||◌, ◌≡◌, refl, sym, Option, List, [], ◌∷◌, take,
  All, leb, Bool-cases, inl, inr, arith, if◌then◌else◌, is_empty, subst,
}
use vcse.Memory.Model.{State, Goal}
use vcse.Verifier.Final.{evaluate as evaluate_final, active_goal}
use vcse.Verifier.Stack.{evaluate as evaluate_stack}
use vcse.Transition.Args.{Transition}
use vcse.Search.Node.{Floats, SearchNode, SearchConfig, Counts, reached}
use vcse.Search.Steps.{Step, go, found, crashed, Children, Level, Position}
use vcse.Search.Beam.{
  is_failed, is_verified, rescored, resume, visit_evaluated, visit_frontier, insert_node,
  sort_nodes, choose_best, close_level, expand_each,
}
use vcse.Search.Beam.Derived.{Derived, evaluated, IsGood, IsAt, Fits, AreAt}
use vcse.Search.Beam.Expand.{expand_each-Fits}

module _ (f : Floats) (config : SearchConfig (f.Float))
    (propose : State → Option Goal → List Transition) (s : State) where
  abbrev pub GoodNode : SearchNode f.Float → Type 0
  GoodNode = IsGood s config.max_depth config.max_nodes_expanded

  abbrev pub NodeAt : ℕ → SearchNode f.Float → Type 0
  NodeAt = IsAt s config.max_depth config.max_nodes_expanded

  -- Children of depth `d + 1`, of which there are none below the last level
  pub record IsLevel (d : ℕ) (l : Level f.Float) : Type 0 where
    pub best : GoodNode l.best
    pub children : All (NodeAt (d + 1)) l.children.next_frontier
    pub bounded : l.children.counts.nodes_expanded ≤ config.max_nodes_expanded
    pub last : config.max_depth ≤ d → is_empty l.children.next_frontier ≡ true

  abbrev pub FitsLevel : ℕ → Step f.Float (Level f.Float) → Type 0
  FitsLevel d = Fits s config.max_depth config.max_nodes_expanded (IsLevel d)

  if-IsGood :
      (b : Bool) (n m : SearchNode f.Float)
      → GoodNode n
      → GoodNode m
      → GoodNode (if b then n else m)
  if-IsGood true n m g h = g
  if-IsGood false n m g h = h

  module _ (d : ℕ) (next : Level f.Float → Step f.Float (Level f.Float))
      (go_on : (l : Level f.Float) → IsLevel d l → FitsLevel d (next l)) where
    resume-Fits :
        (l : Level f.Float)
        → GoodNode l.best
        → (d < config.max_depth)
        → (x : Step f.Float (Children f.Float))
        → Fits s config.max_depth config.max_nodes_expanded
            (AreAt s config.max_depth config.max_nodes_expanded (d + 1))
            x
        → FitsLevel d (resume f config propose l x next)
    resume-Fits l g below (go c) (all, bound) =
        go_on _
          (record { best = g; children = all; bounded = bound; last = λ h. absurd (omega arith) })
    resume-Fits l g below (found n final counts) h = h
    resume-Fits l g below crashed h = tt

    choice-Fits :
        (a b : Bool) (x y z : Step f.Float (Level f.Float))
        → FitsLevel d x
        → (b ≡ true → FitsLevel d y)
        → (b ≡ false → FitsLevel d z)
        → FitsLevel d (if a then x else if b then y else z)
    choice-Fits true b x y z p q r = p
    choice-Fits false true x y z p q r = q refl
    choice-Fits false false x y z p q r = r refl

    visit_evaluated-Fits :
        (n : SearchNode f.Float)
        → NodeAt d n
        → (v : State) → Derived s n.transition_history v
        → (l : Level f.Float) → IsLevel d l
        → FitsLevel d (visit_evaluated f config propose n (evaluate_stack v) l next)
    unfolding visit_evaluated
    visit_evaluated-Fits n (g, here) v w l h =
        let u = (evaluate_stack v).0 in
        let stack = (evaluate_stack v).1 in
        let final = evaluate_final u stack.score in
        let node = rescored f config propose n u stack final.status in
        let good : GoodNode node = record {
          derived = evaluated w;
          counted = g.counted;
          within = g.within;
        } in
        let better = l.shared || f.less l.best.score node.score || is_verified final.status in
        let l' : Level f.Float = record {
          best = if better then node else l.best;
          shared = false;
          children = record l.children { counts = reached n.depth l.children.counts };
        } in
        let best = if-IsGood better node l.best good h.best in
        choice-Fits (is_verified final.status)
          (is_failed final.status || leb config.max_depth n.depth)
          (found node final l'.children.counts) (next l')
          (resume f config propose l'
            (expand_each f config propose node (propose u (active_goal u)) l'.children) next)
          (
            good,
            record { before = v; derived = w; is_evaluated = refl; is_final = refl },
            h.bounded,
          )
          (λ _.
            go_on l'
              (record { best = best; children = h.children; bounded = h.bounded; last = h.last }))
          (λ more.
            let below : n.depth < config.max_depth = ground arith in
            resume-Fits l' best (ground (arith, here)) _ (
              subst
                (λ k.
                  Fits s config.max_depth config.max_nodes_expanded
                    (AreAt s config.max_depth config.max_nodes_expanded (k + 1))
                    (expand_each f config propose node (propose u (active_goal u)) l'.children))
                here
                (expand_each-Fits f config propose s node good below (propose u (active_goal u))
                  l'.children
                  (
                    subst (λ k. All (NodeAt (k + 1)) l.children.next_frontier) (sym here)
                        h.children,
                    h.bounded,
                  ))))

  pub visit_frontier-Fits :
      (d : ℕ) (ns : List (SearchNode f.Float))
      → All (NodeAt d) ns
      → (l : Level f.Float) → IsLevel d l
      → FitsLevel d (visit_frontier f config propose ns l)
  unfolding visit_frontier
  visit_frontier-Fits d [] all l h = h
  visit_frontier-Fits d (n ∷ ns) (g, all) l h =
      visit_evaluated-Fits d (visit_frontier f config propose ns) (visit_frontier-Fits d ns all) n g
        n.state g.0.derived l h

  module _ (P : SearchNode f.Float → Type 0) where
    if-All :
        (b : Bool) (ns ms : List (SearchNode f.Float))
        → All P ns
        → All P ms
        → All P (if b then ns else ms)
    if-All true ns ms h k = h
    if-All false ns ms h k = k

    insert_node-All :
        (n : SearchNode f.Float) (ms : List (SearchNode f.Float))
        → P n
        → All P ms
        → All P (insert_node f config propose n ms)
    unfolding insert_node
    insert_node-All n [] p h = (p, tt)
    insert_node-All n (m ∷ ms) p (q, h) =
        if-All (f.less n.score m.score) (m ∷ insert_node f config propose n ms) (n ∷ m ∷ ms)
          (q, insert_node-All n ms p h) (p, (q, h))

    sort_nodes-All :
        (ns : List (SearchNode f.Float)) → All P ns → All P (sort_nodes f config propose ns)
    unfolding sort_nodes
    sort_nodes-All [] h = tt
    sort_nodes-All (n ∷ ns) (p, h) =
        insert_node-All n (sort_nodes f config propose ns) p (sort_nodes-All ns h)

    take-All : (k : ℕ) (ns : List (SearchNode f.Float)) → All P ns → All P (take k ns)
    take-All zero ns h = tt
    take-All (suc k) [] h = tt
    take-All (suc k) (n ∷ ns) (p, h) = (p, take-All k ns h)

  -- Nodes of depth `d` at the top of the outer loop, of which there are none below the last level
  pub record IsPosition (d : ℕ) (p : Position f.Float) : Type 0 where
    pub best : GoodNode p.best
    pub frontier : All (NodeAt d) p.frontier
    pub bounded : p.counts.nodes_expanded ≤ config.max_nodes_expanded
    pub last : config.max_depth < d → is_empty p.frontier ≡ true

  choose_best-IsPosition :
      (d : ℕ) (ns : List (SearchNode f.Float)) (b : SearchNode f.Float) (c : Counts)
      → All (NodeAt d) ns
      → GoodNode b
      → (c.nodes_expanded ≤ config.max_nodes_expanded)
      → (config.max_depth < d → is_empty ns ≡ true)
      → IsPosition d (choose_best f config propose ns b c)
  unfolding choose_best
  choose_best-IsPosition d [] b c h g bound last = record {
    best = g;
    frontier = tt;
    bounded = bound;
    last = λ _. refl;
  }
  choose_best-IsPosition d (n ∷ ns) b c ((k, here), h) g bound last =
      elim (Bool-cases (f.less b.score n.score)) [
        | inl better ↦
            rw better
              (record { best = head; frontier = ((head, here), h); bounded = bound; last = last })
        | inr other ↦
            rw other (record { best = g; frontier = ((k, here), h); bounded = bound; last = last })
      ]
    where
      head : GoodNode (record n { state = (evaluate_stack n.state).0 })
      head = record { derived = evaluated k.derived; counted = k.counted; within = k.within }

  kept_empty :
      (k : ℕ) (ns : List (SearchNode f.Float))
      → is_empty ns ≡ true
      → is_empty (take k (sort_nodes f config propose ns)) ≡ true
  unfolding sort_nodes
  kept_empty zero [] e = refl
  kept_empty (suc k) [] e = refl
  kept_empty k (n ∷ ns) e = cc

  pub close_level-IsPosition :
      (d : ℕ) (l : Level f.Float)
      → IsLevel d l
      → IsPosition (d + 1) (close_level f config propose l)
  unfolding close_level
  close_level-IsPosition d l h =
      let ns = l.children.next_frontier in
      choose_best-IsPosition (d + 1) (take config.beam_width (sort_nodes f config propose ns))
        l.best _
        (take-All (NodeAt (d + 1)) config.beam_width (sort_nodes f config propose ns)
          (sort_nodes-All (NodeAt (d + 1)) ns h.children))
        h.best h.bounded (λ deep. kept_empty config.beam_width ns (h.last (omega arith)))
