-- ===== src/Search/Beam/Expand.antt =====
-- The inner loop of the search (src/vcse/search/beam.py): what holds of the children of a node.
use vcse.Prelude.{
  ℕ, ◌+◌, ◌<◌, Bool, true, false, not, ◌||◌, ◌≡◌, refl, sym, ap, ◌∙◌, Option, List, [], ◌∷◌, ◌++◌,
  All, leb, Bool-cases, inl, inr, arith, if◌then◌else◌, length-append,
}
use vcse.Memory.Model.{State, Goal}
use vcse.Verifier.Final.{evaluate as evaluate_final}
use vcse.Verifier.Stack.{evaluate as evaluate_stack}
use vcse.Transition.Args.{Transition}
use vcse.Transition.Apply.{apply, returned, raised, Outcome as Applied}
use vcse.Search.Node.{Floats, SearchNode, SearchConfig, reached}
use vcse.Search.Steps.{Step, found, Children}
use vcse.Search.Beam.{is_failed, is_verified, admit, expand_with, expand_each, counted, child_of}
use vcse.Search.Beam.Derived.{Derived, applied, evaluated, IsGood, IsAt, Fits, AreAt}

All-snoc :
    {A : Type 0} (P : A → Type 0) (xs : List A) (x : A) → All P xs → P x → All P (xs ++ x ∷ [])
All-snoc P [] x h p = (p, tt)
All-snoc P (y ∷ xs) x (q, h) p = (q, All-snoc P xs x h p)

module _ (f : Floats) (config : SearchConfig (f.Float))
    (propose : State → Option Goal → List Transition) (s : State) where
  -- What the children of a node of depth `d` satisfy
  abbrev ChildOf : ℕ → Children f.Float → Type 0
  ChildOf d = AreAt s config.max_depth config.max_nodes_expanded (d + 1)

  abbrev FitsChildren : ℕ → Step f.Float (Children f.Float) → Type 0
  FitsChildren d = Fits s config.max_depth config.max_nodes_expanded (ChildOf d)

  abbrev GoodNode : SearchNode f.Float → Type 0
  GoodNode = IsGood s config.max_depth config.max_nodes_expanded

  choice-Fits :
      (d : ℕ) (a b : Bool) (x y z : Step f.Float (Children f.Float))
      → FitsChildren d x
      → FitsChildren d y
      → FitsChildren d z
      → FitsChildren d (if a then x else if b then y else z)
  choice-Fits d true b x y z p q r = p
  choice-Fits d false true x y z p q r = q
  choice-Fits d false false x y z p q r = r

  module _ (node : SearchNode f.Float) (g : GoodNode node)
      (below : node.depth < config.max_depth) where
    admit-Fits :
        (t : Transition) (v : State)
        → Derived s (node.transition_history ++ t ∷ []) v
        → (acc : Children f.Float) (next : Children f.Float → Step f.Float (Children f.Float))
        → ((c : Children f.Float) → ChildOf node.depth c → FitsChildren node.depth (next c))
        → ChildOf node.depth acc
        → FitsChildren node.depth (admit f config propose node t (evaluate_stack v) acc next)
    unfolding admit
    admit-Fits t v d acc next go_on (all, bound) =
        let u = (evaluate_stack v).0 in
        let stack = (evaluate_stack v).1 in
        let good : GoodNode
            (child_of f config propose node t u stack (evaluate_final u stack.score).status) =
          record {
            derived = evaluated d;
            counted =
                ap (λ n. n + 1) g.counted ∙ sym (length-append node.transition_history (t ∷ []));
            within = omega arith;
          } in
        let final = evaluate_final u stack.score in
        let child = child_of f config propose node t u stack final.status in
        let counts = reached (node.depth + 1) acc.counts in
        choice-Fits node.depth
          (not stack.passed
            || is_failed final.status
            || f.less (f.of_score stack.score) config.verifier_score_threshold)
          (is_verified final.status) (next acc) (found child final counts)
          (next (record { counts = counts; next_frontier = acc.next_frontier ++ child ∷ [] }))
          (go_on acc (all, bound))
          (good, record { before = v; derived = d; is_evaluated = refl; is_final = refl }, bound)
          (go_on (record { counts = counts; next_frontier = acc.next_frontier ++ child ∷ [] })
            (
              All-snoc (IsAt s config.max_depth config.max_nodes_expanded (node.depth + 1))
                  acc.next_frontier child all (good, refl),
              bound,
            ))

    expand_with-Fits :
        (t : Transition) (o : Applied)
        → apply t node.state ≡ o
        → (acc : Children f.Float) (next : Children f.Float → Step f.Float (Children f.Float))
        → ((c : Children f.Float) → ChildOf node.depth c → FitsChildren node.depth (next c))
        → ChildOf node.depth acc
        → FitsChildren node.depth (expand_with f config propose node t o acc next)
    unfolding expand_with
    expand_with-Fits t raised e acc next go_on h = tt
    expand_with-Fits t (returned u r) e acc next go_on h = elim (Bool-cases r.passed) [
      | inr bad ↦ rw bad (go_on acc h)
      | inl ok ↦ rw ok (admit-Fits t u (applied g.derived t u r e ok) acc next go_on h)
    ]

    pub expand_each-Fits :
        (ts : List Transition) (acc : Children f.Float)
        → ChildOf node.depth acc
        → FitsChildren node.depth (expand_each f config propose node ts acc)
    unfolding expand_each
    expand_each-Fits [] acc h = h
    expand_each-Fits (t ∷ ts) acc h =
        elim (Bool-cases (leb config.max_nodes_expanded acc.counts.nodes_expanded)) [
          | inl full ↦ rw full h
          | inr room ↦ rw room (
              expand_with-Fits t (apply t node.state) refl (counted f config propose acc)
                (expand_each f config propose node ts) (expand_each-Fits ts) (h.0, ground arith))
        ]
