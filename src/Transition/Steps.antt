-- ===== src/Transition/Steps.antt =====
-- What `Transition.apply` (src/vcse/transitions/state_transition.py) does to the state: nothing, or
-- one call of a mutating method on a clone.
use vcse.Prelude.{
  String, true, false, ◌≡◌, refl, sym, ap, ◌∙◌, ◌⊎◌, inl, inr, Option, none, some, List, Bool-cases,
  string_eq, subst,
}
use vcse.Value.{TruthStatus}
use vcse.Memory.Model.{State, Made, made, value_error}
use vcse.Memory.{clone}
use vcse.Memory.Calls.{
  Call, claim, goal, constraint, truth_status, bind, evidence, contradiction, run,
}
use vcse.Memory.Claims.{IsWellFormed}
use vcse.Memory.Calls.{run-IsWellFormed}
use vcse.Verifier.Base.{VerificationResult}
use vcse.Transition.Args.{
  Action, add_claim_action, add_constraint_action, update_truth_status_action, bind_symbol_action,
  add_goal_action, add_evidence_action, record_contradiction_action, parse_action, Transition, arg,
  arg_str,
}
use vcse.Transition.Validate.{validate}
use vcse.Transition.Apply.{
  Outcome, returned, raised, applied, claim_added, claim_status, claim_dependencies,
  apply_add_claim, constraint_added, apply_add_constraint, status_updated,
  apply_update_truth_status, apply_bind_symbol, apply_add_goal, apply_add_evidence,
  apply_record_contradiction, apply_action, run_applier, apply,
}

-- The outcome `o` of an applier on the state `s`.
pub data Effect (t : Transition) (s : State) (o : Outcome) : Type 0 where
  refused : (r : VerificationResult) → r.passed ≡ false → o ≡ returned s r → Effect t s o
  performed :
      (c : Call) (element : String) → o ≡ returned (run s c) (applied t element) → Effect t s o
  failed : o ≡ raised → Effect t s o

module _ (t : Transition) (s : State) where
  claim_added-Effect :
      (deps : List String) (st : TruthStatus) (q : Option (List (String × String)))
      → Effect t s (claim_added t s deps st q)
  unfolding claim_added run
  claim_added-Effect deps st none = failed refl
  claim_added-Effect deps st (some q) =
      performed
        (claim (arg_str t.args "subject") (arg_str t.args "relation") (arg_str t.args "object") st q
          deps t.source)
        _ refl

  claim_status-Effect :
      (deps : List String) (st : Option TruthStatus) → Effect t s (claim_status t s deps st)
  unfolding claim_status
  claim_status-Effect deps none = refused _ refl refl
  claim_status-Effect deps (some st) = claim_added-Effect deps st _

  claim_dependencies-Effect :
      (deps : Option (List String)) → Effect t s (claim_dependencies t s deps)
  unfolding claim_dependencies
  claim_dependencies-Effect none = refused _ refl refl
  claim_dependencies-Effect (some deps) = claim_status-Effect deps _

  constraint_added-Effect : (m : Made) → Effect t s (constraint_added t s m)
  unfolding constraint_added run
  constraint_added-Effect (value_error reason) = failed refl
  constraint_added-Effect (made c) = performed (constraint c) _ refl

  status_updated-Effect :
      (id : String) (st : Option TruthStatus) → Effect t s (status_updated t s id st)
  unfolding status_updated run
  status_updated-Effect id none = failed refl
  status_updated-Effect id (some st) = performed (truth_status id st) _ refl

  apply_action-Effect : (a : Action) → Effect t s (apply_action a t s)
  unfolding apply_action apply_add_claim apply_add_constraint apply_update_truth_status
      apply_bind_symbol apply_add_goal apply_add_evidence apply_record_contradiction run
  apply_action-Effect add_claim_action = claim_dependencies-Effect _
  apply_action-Effect add_constraint_action = constraint_added-Effect _
  apply_action-Effect update_truth_status_action = status_updated-Effect _ _
  apply_action-Effect bind_symbol_action =
      performed (bind (arg_str t.args "name") (arg t.args "value")) _ refl
  apply_action-Effect add_goal_action =
      performed
        (goal (arg_str t.args "subject") (arg_str t.args "relation") (arg_str t.args "object")) _
        refl
  apply_action-Effect add_evidence_action = performed (evidence _ _ _) _ refl
  apply_action-Effect record_contradiction_action = performed (contradiction _ _ _ _) _ refl

  run_applier-Effect : (a : Option Action) → Effect t s (run_applier t s a)
  unfolding run_applier
  run_applier-Effect none = failed refl
  run_applier-Effect (some a) = apply_action-Effect a

returned-injective :
    {s s' : State} {r r' : VerificationResult} → returned s r ≡ returned s' r' → (s ≡ s') × (r ≡ r')
returned-injective e = (cc, cc)

applied_passed : (t : Transition) (element : String) → (applied t element).passed ≡ true
unfolding applied
applied_passed t element = refl

apply-Effect : (t : Transition) (s : State) → Effect t (clone s) (apply t s)
unfolding apply
apply-Effect t s = elim (Bool-cases (validate t s).passed) [
  | inl ok ↦ rw ok (run_applier-Effect t (clone s) (parse_action t.type))
  | inr bad ↦ rw bad (refused (validate t s) bad refl)
]

-- A transition either leaves a plain clone of the state and does not pass, or passes and leaves what
-- one call of a mutating method makes of the clone.
pub apply_refines :
    (t : Transition) (s s' : State) (r : VerificationResult)
    → apply t s ≡ returned s' r
    → ((r.passed ≡ false) × (s' ≡ clone s))
      ⊎ ((r.passed ≡ true) × ((c : Call) × (s' ≡ run (clone s) c)))
apply_refines t s s' r e = elim (apply-Effect t s) [
  | refused q bad o ↦
      let (same, result) = returned-injective (sym e ∙ o) in
      inl (ap (λ q. q.passed) result ∙ bad, same)
  | performed c element o ↦
      let (same, result) = returned-injective (sym e ∙ o) in
      inr (ap (λ q. q.passed) result ∙ applied_passed t element, (c, same))
  | failed o ↦ cc (o, e)
]

-- A transition that returns keeps a state well-formed, whether it passes or not.
pub apply-IsWellFormed :
    (t : Transition) (s s' : State) (r : VerificationResult)
    → IsWellFormed s
    → apply t s ≡ returned s' r
    → IsWellFormed s'
unfolding clone
apply-IsWellFormed t s s' r w e = elim (apply_refines t s s' r e) [
  | inl (_, same) ↦ subst IsWellFormed (sym same) w
  | inr (_, (c, same)) ↦ subst IsWellFormed (sym same) (run-IsWellFormed (clone s) c w)
]
