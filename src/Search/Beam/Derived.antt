-- ===== src/Search/Beam/Derived.antt =====
-- The states that a search (src/vcse/search/beam.py) makes of the initial one, and what holds of a
-- node.
use vcse.Prelude.{ℕ, ◌≤◌, true, ◌≡◌, List, [], ◌∷◌, ◌++◌, length, All}
use vcse.Memory.Model.{State}
use vcse.Memory.{clone}
use vcse.Memory.Claims.{IsWellFormed}
use vcse.Verifier.Base.{VerificationResult}
use vcse.Verifier.Final.{FinalStateEvaluation, evaluate as evaluate_final}
use vcse.Verifier.Stack.{evaluate as evaluate_stack}
use vcse.Verifier.Stack.Writes.{stack-IsWellFormed}
use vcse.Transition.Args.{Transition}
use vcse.Transition.Apply.{apply, returned}
use vcse.Transition.Steps.{apply-IsWellFormed}
use vcse.Search.Node.{SearchNode, Counts}
use vcse.Search.Steps.{Step, go, found, crashed, Children}

-- `Derived s h t`: the transitions `h`, applied in this order, lead from a clone of `s` to `t`, where
-- each passes and the verifier stack may evaluate every state on the way.
pub data Derived (s : State) : List Transition → State → Type 0 where
  origin : Derived s [] (clone s)
  applied :
      {h : List Transition} {t : State}
      → Derived s h t
      → (x : Transition) (t' : State) (r : VerificationResult) → apply x t ≡ returned t' r
      → r.passed ≡ true
      → Derived s (h ++ x ∷ []) t'
  evaluated : {h : List Transition} {t : State} → Derived s h t → Derived s h (evaluate_stack t).0

pub Derived-IsWellFormed :
    (s : State)
    → IsWellFormed s
    → (h : List Transition) (t : State) → Derived s h t
    → IsWellFormed t
unfolding clone
Derived-IsWellFormed s w h t origin = w
Derived-IsWellFormed s w h t (applied {h = g} {t = u} d x t' r e p) =
    apply-IsWellFormed x u t r (Derived-IsWellFormed s w g u d) e
Derived-IsWellFormed s w h t (evaluated {h = g} {t = u} d) =
    stack-IsWellFormed u (Derived-IsWellFormed s w g u d)

-- The evaluation is that of a node's state with the score that the verifier stack gives: the state
-- before the stack evaluates it is one that the transitions of the node lead to.
pub record IsEvaluation (s : State) (h : List Transition) (t : State) (final : FinalStateEvaluation)
    : Type 0 where
  pub before : State
  pub derived : Derived s h before
  pub is_evaluated : (evaluate_stack before).0 ≡ t
  pub is_final : final ≡ evaluate_final t (evaluate_stack before).1.score

module _ {F : Type 0} (s : State) (max_depth max_nodes : ℕ) where
  pub record IsGood (n : SearchNode F) : Type 0 where
    pub derived : Derived s n.transition_history n.state
    pub counted : n.depth ≡ length n.transition_history
    pub within : n.depth ≤ max_depth

  abbrev pub IsAt : ℕ → SearchNode F → Type 0
  IsAt d n = IsGood n × (n.depth ≡ d)

  -- What is returned: a node, and the evaluation of its state
  abbrev pub IsReturnable : SearchNode F → FinalStateEvaluation → Counts → Type 0
  IsReturnable n final counts =
      IsGood n
      × IsEvaluation s n.transition_history n.state final
      × (counts.nodes_expanded ≤ max_nodes)

  abbrev pub Fits : {A : Type 0} → (A → Type 0) → Step F A → Type 0
  Fits P (go a) = P a
  Fits P (found n final counts) = IsReturnable n final counts
  Fits P crashed = Unit {0}

  abbrev pub AreAt : ℕ → Children F → Type 0
  AreAt d c = All (IsAt d) c.next_frontier × (c.counts.nodes_expanded ≤ max_nodes)
