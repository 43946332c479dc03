-- ===== src/Proposer/Rules/Correct.antt =====
-- What `RuleBasedProposer.propose` (src/vcse/proposer/rule_based.py) proposes.
use vcse.Prelude.{
  ℕ, suc, ◌≤◌, Bool, true, false, not, ◌&&◌, string_eq, ◌≡◌, refl, sym, ap, ◌∙◌, subst, Option,
  none, some, List, [], ◌∷◌, ◌++◌, length, take, filterb, if◌then◌else◌, arith, All, length-take-le,
}
use vcse.Dict.{values}
use vcse.Memory.Model.{State, Goal}
use vcse.Transition.Args.{Transition}
use vcse.Proposer.Rules.{
  is_equality, propose_transitive_closure, propose_equality_propagation,
  propose_contradiction_candidates, misses, insert_proposal, sort_proposals, goal_first, propose,
}
use vcse.Proposer.Rules.Justified.{
  IsStored, IsJustified, All-append, All-take, All-filterb, All-Member, transitive_left-AreProposed,
  propagate_each-Justified,
}
use vcse.Proposer.Rules.Conflicts.{contradictions-Justified}

module _ (P : Transition → Type 0) (g : Goal) where
  either-All :
      (b : Bool) (ts us : List Transition) → All P ts → All P us → All P (if b then ts else us)
  either-All true ts us h k = h
  either-All false ts us h k = k

  insert_proposal-All :
      (t : Transition) (us : List Transition) → P t → All P us → All P (insert_proposal g t us)
  unfolding insert_proposal
  insert_proposal-All t [] p h = (p, tt)
  insert_proposal-All t (u ∷ us) p (q, h) =
      either-All (misses g t && not (misses g u)) (u ∷ insert_proposal g t us) (t ∷ u ∷ us)
        (q, insert_proposal-All t us p h) (p, (q, h))

  sort_proposals-All : (ts : List Transition) → All P ts → All P (sort_proposals g ts)
  unfolding sort_proposals
  sort_proposals-All [] h = tt
  sort_proposals-All (t ∷ ts) (p, h) =
      insert_proposal-All t (sort_proposals g ts) p (sort_proposals-All ts h)

module _ (g : Goal) where
  length-insert_proposal :
      (t : Transition) (us : List Transition) → length (insert_proposal g t us) ≡ suc (length us)
  unfolding insert_proposal
  length-insert_proposal t [] = refl
  length-insert_proposal t (u ∷ us) = ground (arith, length-insert_proposal t us)

  length-sort_proposals : (ts : List Transition) → length (sort_proposals g ts) ≡ length ts
  unfolding sort_proposals
  length-sort_proposals [] = refl
  length-sort_proposals (t ∷ ts) =
      length-insert_proposal t (sort_proposals g ts) ∙ ap suc (length-sort_proposals ts)

goal_first-All :
    (P : Transition → Type 0) (ts : List Transition) (goal : Option Goal)
    → All P ts
    → All P (goal_first ts goal)
unfolding goal_first
goal_first-All P ts none h = h
goal_first-All P ts (some g) h = sort_proposals-All P g ts h

length-goal_first :
    (ts : List Transition) (goal : Option Goal) → length (goal_first ts goal) ≡ length ts
unfolding goal_first
length-goal_first ts none = refl
length-goal_first ts (some g) = length-sort_proposals g ts

-- Every proposal has its reason in claims of the state, and there are no more of them than the limit.
pub propose-IsJustified :
    (limit : ℕ) (s : State) (goal : Option Goal)
    → All (IsJustified s) (propose limit s goal) × (length (propose limit s goal) ≤ limit)
unfolding propose propose_transitive_closure propose_equality_propagation
propose-IsJustified limit s goal =
    let claims = values s.claims in
    let stored = All-Member claims in
    let closure = propose_transitive_closure s limit claims in
    let equalities = propose_equality_propagation s claims in
    let conflicts = propose_contradiction_candidates s claims in
    let all = closure ++ (equalities ++ conflicts) in
    (
      goal_first-All (IsJustified s) (take limit all) goal (
          All-take (IsJustified s) limit all (
            All-append (IsJustified s) closure (equalities ++ conflicts)
              (transitive_left-AreProposed s limit claims stored claims stored [] tt)
              (All-append (IsJustified s) equalities conflicts
                (propagate_each-Justified s claims stored (filterb is_equality claims)
                  (All-filterb (IsStored s) is_equality claims stored))
                (contradictions-Justified s claims stored)))),
      subst (λ n. n ≤ limit) (sym (length-goal_first (take limit all) goal))
          (length-take-le limit all),
    )
