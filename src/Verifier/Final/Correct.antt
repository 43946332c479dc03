-- ===== src/Verifier/Final/Correct.antt =====
-- When `FinalStateEvaluator.evaluate` (src/vcse/verifier/final_state.py) says VERIFIED.
use vcse.Prelude.{
  String, true, false, ◌==◌, string_eq, Option, none, some, List, [], ◌∷◌, ◌≡◌, ◌≢◌, ◌↔◌, refl, sym,
  ap, subst, ◌∙◌, arith, is_empty, any, contains, inl, inr, Bool-cases, Option-cases, some_eq, map,
}
use vcse.Dict.{get, has}
use vcse.Memory.Keys.{canonical_claim_key, key_eq}
use vcse.Memory.Model.{State, Claim, Goal, Constraint}
use vcse.Memory.{has_contradiction_on_path, find_claim}
use vcse.Memory.Claims.{IsWellFormed}
use vcse.Memory.AddClaim.{find_claim_at, find_claim_absent}
use vcse.Memory.Path.{text_at, dependency_path_for_claim, proof_trace_for_claim}
use vcse.Memory.Path.Correct.{dependency_path_iff}
use vcse.Memory.Path.Unseen.{In_nil}
use vcse.Memory.Path.Walk.{itself}
use vcse.Verifier.Contradictions.{is_final}
use vcse.Verifier.Goals.{is_constraint_goal}
use vcse.Verifier.Final.{
  Score, score_lt, threshold, verified, evaluate_claim, make_evaluation, evaluate_constraint_goal,
  evaluate_found, evaluate_goal, evaluate, active_goal, contradiction_reasons,
  has_unsat_contradiction, conclude,
}
use vcse.Verifier.Final.Quiet.{
  IsQuiet, contradiction_reasons_iff, has_unsat_contradiction-IsQuiet, path-IsQuiet,
}

-- What makes a goal hold in a state: for a goal "x satisfies constraints" a binding of x and a
-- constraint on x, and for any other goal a stored claim with a final status.
pub data Holds (s : State) (g : Goal) : Type 0 where
  by_constraints :
      is_constraint_goal g ≡ true
      → has s.symbol_bindings g.subject ≡ true
      → any (λ (c : Constraint). c.target == g.subject) s.constraints ≡ true
      → Holds s g
  by_claim :
      (c : Claim)
      → is_constraint_goal g ≡ false
      → find_claim s g.subject g.relation g.object [] ≡ some c
      → is_final c.status ≡ true
      → Holds s g

-- In a well-formed state the claim that `find_claim` returns has a nonempty proof trace.
module _ (s : State) (w : IsWellFormed s) where
  found_stored :
      (subject relation object : String) (quals : List (String × String)) (c : Claim)
      → find_claim s subject relation object quals ≡ some c
      → get s.claims c.id ≡ some c
  found_stored subject relation object quals c e =
      elim (Option-cases (get s.claim_index (canonical_claim_key subject relation object quals))) [
        | inl absent ↦ cc (find_claim_absent s subject relation object quals absent, e)
        | inr (i, at) ↦
            let (d, x) = w.indexed (canonical_claim_key subject relation object quals) i at in
            let same : d ≡ c =
              some_eq
                (sym x.stored ∙ sym (find_claim_at s subject relation object quals i at) ∙ e) in
            ap (get s.claims) (ap (λ t. t.id) (sym same) ∙ x.named) ∙ x.stored ∙ ap some same
      ]

  trace_nonempty :
      (c : Claim) → get s.claims c.id ≡ some c → is_empty (proof_trace_for_claim s c.id) ≡ false
  unfolding proof_trace_for_claim
  trace_nonempty c stored =
      map_nonempty (dependency_path_for_claim s c.id)
        ((dependency_path_iff s c.id c.id).1 (itself c.id c refl stored))
    where
      map_nonempty :
          (ids : List String)
          → contains c.id ids ≡ true
          → is_empty (map (text_at s.claims) ids) ≡ false
      map_nonempty [] h = cc (In_nil c.id, h)
      map_nonempty (i ∷ ids) h = refl

module _ (s : State) (score : Score) where
  constraint_goal_iff :
      (g : Goal)
      → ((evaluate_constraint_goal s score g).status ≡ verified) ↔ (
          (has_unsat_contradiction s ≡ false)
          × (is_empty (contradiction_reasons s) ≡ true)
          × (score_lt score threshold ≡ false)
          × (has s.symbol_bindings g.subject ≡ true)
          × (any (λ (c : Constraint). c.target == g.subject) s.constraints ≡ true))
  unfolding evaluate_constraint_goal make_evaluation conclude
  constraint_goal_iff g = ground arith

  record ClaimVerified (c : Claim) : Type 0 where
    path : has_contradiction_on_path s (dependency_path_for_claim s c.id) ≡ false
    unsat : has_unsat_contradiction s ≡ false
    reasons : is_empty (contradiction_reasons s) ≡ true
    enough : score_lt score threshold ≡ false
    final : is_final c.status ≡ true
    trace : is_empty (proof_trace_for_claim s c.id) ≡ false

  evaluate_claim_iff :
      (c : Claim) → ((evaluate_claim s score c).status ≡ verified) ↔ ClaimVerified c
  unfolding evaluate_claim make_evaluation conclude
  evaluate_claim_iff c = ground arith

  evaluate_absent-ne : (g : Goal) → (evaluate_found s score g none).status ≢ verified
  unfolding evaluate_found make_evaluation conclude
  evaluate_absent-ne g e = ground arith

  evaluate_no_goal-ne : (evaluate_goal s score none).status ≢ verified
  unfolding evaluate_goal make_evaluation conclude
  evaluate_no_goal-ne e = ground arith

  pub record IsVerified (g : Goal) : Type 0 where
    pub active : active_goal s ≡ some g
    pub quiet : IsQuiet s
    pub enough : score_lt score threshold ≡ false
    pub holds : Holds s g

  found_verified :
      IsWellFormed s
      → (g : Goal) → is_constraint_goal g ≡ false
      → active_goal s ≡ some g
      → (o : Option Claim) → find_claim s g.subject g.relation g.object [] ≡ o
      → ((evaluate_found s score g o).status ≡ verified) ↔ IsVerified g
  unfolding evaluate_found
  found_verified w g k a none f =
      ((λ e. absurd (evaluate_absent-ne g e)), (λ v. absurd (not_held v.holds)))
    where
      not_held : ¬ Holds s g
      not_held (by_constraints k' b t) = cc (k, k')
      not_held (by_claim c k' f' n) = cc (f, f')
  found_verified w g k a (some c) f = (
    (λ e.
        let v = (evaluate_claim_iff c).0 e in
        record {
          active = a;
          quiet = (contradiction_reasons_iff s).0 v.reasons;
          enough = v.enough;
          holds = by_claim c k f v.final;
        }),
    (λ v. (evaluate_claim_iff c).1 (record {
      path = path-IsQuiet s (dependency_path_for_claim s c.id) v.quiet;
      unsat = has_unsat_contradiction-IsQuiet s v.quiet;
      reasons = (contradiction_reasons_iff s).1 v.quiet;
      enough = v.enough;
      final = held_final v.holds;
      trace = trace_nonempty s w c (found_stored s w g.subject g.relation g.object [] c f);
    })),
  )
    where
      held_final : Holds s g → is_final c.status ≡ true
      held_final (by_constraints k' b t) = cc (k, k')
      held_final (by_claim d k' f' n) =
          subst (λ (x : Claim). is_final x.status ≡ true) (some_eq (sym f' ∙ f)) n

  constraint_verified :
      (g : Goal)
      → is_constraint_goal g ≡ true
      → active_goal s ≡ some g
      → ((evaluate_constraint_goal s score g).status ≡ verified) ↔ IsVerified g
  constraint_verified g k a = (
    (λ e.
        let (unsat, reasons, enough, bound, target) = (constraint_goal_iff g).0 e in
        record {
          active = a;
          quiet = (contradiction_reasons_iff s).0 reasons;
          enough = enough;
          holds = by_constraints k bound target;
        }),
    (λ v.
        let (bound, target) = held v.holds in
        (constraint_goal_iff g).1 (
          has_unsat_contradiction-IsQuiet s v.quiet,
          (contradiction_reasons_iff s).1 v.quiet,
          v.enough,
          bound,
          target,
        )),
  )
    where
      held :
          Holds s g
          → (has s.symbol_bindings g.subject ≡ true)
            × (any (λ (c : Constraint). c.target == g.subject) s.constraints ≡ true)
      held (by_constraints k' b t) = (b, t)
      held (by_claim d k' f n) = cc (k, k')

  goal_verified :
      IsWellFormed s
      → (g : Goal) → active_goal s ≡ some g
      → ((evaluate_goal s score (some g)).status ≡ verified) ↔ IsVerified g
  unfolding evaluate_goal
  goal_verified w g a = elim (Bool-cases (is_constraint_goal g)) [
    | inl k ↦ rw k (constraint_verified g k a)
    | inr k ↦ rw k (found_verified w g k a (find_claim s g.subject g.relation g.object []) refl)
  ]

-- In a well-formed state the evaluator says VERIFIED if and only if there is an active goal that
-- holds, no element has a contradiction, and the score reaches the threshold.
pub verified_iff :
    (s : State) (score : Score)
    → IsWellFormed s
    → ((evaluate s score).status ≡ verified) ↔ ((g : Goal) × IsVerified s score g)
unfolding evaluate
verified_iff s score w = at_goal (active_goal s) refl
  where
    at_goal :
        (o : Option Goal)
        → active_goal s ≡ o
        → ((evaluate_goal s score o).status ≡ verified) ↔ ((g : Goal) × IsVerified s score g)
    at_goal none a = ((λ e. absurd (evaluate_no_goal-ne s score e)), (λ (g, v). cc (a, v.active)))
    at_goal (some g) a = (
      (λ e. (g, (goal_verified s score w g a).0 e)),
      (λ (h, v).
          (goal_verified s score w g a).1
            (subst (IsVerified s score) (some_eq (sym v.active ∙ a)) v)),
    )
