-- ===== src/Policy/Engine/Lowered.antt =====
-- What `PolicyExecutionEngine.execute` and `PolicyExecutor.run` of src/vcse/policy do to a decision.
use mathlib.Core.List.{Perm}
use vcse.Prelude.{
  ℕ, ◌≤◌, ◌≡◌, refl, sym, ap, ◌∙◌, subst, Bool, true, false, ◌||◌, string_eq, String, Option, none,
  some, List, [], ◌∷◌, ◌++◌, any, filterb, map, arith, some_eq, append-nil, append_assoc,
}
use vcse.Number.{Number}
use vcse.Value.{Value}
use vcse.Dict.{Dict}
use vcse.Trust.Staleness.{Days}
use vcse.Trust.Promoter.{
  TrustDecision, TrustPromoter, Evaluated, decided, refused, unlisted, overflowed, evaluate_claim,
}
use vcse.Policy.Engine.{
  ExecutionRule, ExecutionProfile, PolicyExecutionResult, tier_index, sort_rules, execute_rule,
  execute_rules, execute, condition_of, ran, with_result, run_policy, run,
}
use vcse.Policy.Engine.Sorted.{IsOrdered, sort_rules-Perm, sort_rules-IsOrdered}
use vcse.Policy.Engine.Round.{fires, takes, ids_of, or_false, execute_rule-IsRound}

ids_filter :
    (p : ExecutionRule → Bool) (rule : ExecutionRule) (rules : List ExecutionRule)
    → ids_of (p rule) rule ++ map (λ (r : ExecutionRule). r.rule_id) (filterb p rules)
      ≡ map (λ (r : ExecutionRule). r.rule_id) (filterb p (rule ∷ rules))
unfolding filterb
ids_filter p rule rules = by_test (p rule) refl
  where
    by_test :
        (b : Bool)
        → p rule ≡ b
        → ids_of (p rule) rule ++ map (λ (r : ExecutionRule). r.rule_id) (filterb p rules)
          ≡ map (λ (r : ExecutionRule). r.rule_id) (filterb p (rule ∷ rules))
    by_test true h = rw (h, filterb) refl
    by_test false h = rw (h, filterb) refl

module _ (float_of : String → Option Number) (d : TrustDecision) where
  -- What the rules do to the variables of the loop
  pub record IsExecuted (rules : List ExecutionRule) (x r : PolicyExecutionResult) : Type 0 where
    pub applied :
        r.applied_rules
        ≡ x.applied_rules
          ++ map
              (λ (rule : ExecutionRule). rule.rule_id)
              (filterb (λ rule. fires (condition_of float_of d rule) rule) rules)
    pub blocks : r.blocked ≡ (
        x.blocked
        || any (λ rule. takes "BLOCK_PROMOTION" (condition_of float_of d rule) rule) rules)
    pub reviews : r.requires_review ≡ (
        x.requires_review
        || any (λ rule. takes "REQUIRE_REVIEW" (condition_of float_of d rule) rule) rules)
    pub lowers : tier_index r.final_tier ≤ tier_index x.final_tier

  or_assoc : (a b c e f : Bool) → f ≡ (e || c) → e ≡ (a || b) → f ≡ (a || (b || c))
  or_assoc a b c e f h k = ground (arith, h, k)

  rules-IsExecuted :
      (rules : List ExecutionRule) (x r : PolicyExecutionResult)
      → execute_rules float_of d rules x ≡ some r
      → IsExecuted rules x r
  unfolding execute_rules filterb any
  rules-IsExecuted [] x r h = subst (IsExecuted [] x) (some_eq h) (record {
    applied = sym (append-nil x.applied_rules);
    blocks = or_false x.blocked false refl;
    reviews = or_false x.requires_review false refl;
    lowers = omega arith;
  })
  rules-IsExecuted (rule ∷ rules) x r h =
      by_condition (condition_of float_of d rule) refl h (λ y k. rules-IsExecuted rules y r k)
    where
      later : List String
      later =
          map (λ (q : ExecutionRule). q.rule_id)
            (filterb (λ q. fires (condition_of float_of d q) q) rules)

      by_condition :
          (c : Option Bool)
          → condition_of float_of d rule ≡ c
          → (elim c [
            | none ↦ none
            | some holds ↦ execute_rules float_of d rules (execute_rule rule holds x)
          ])
            ≡ some r
          → ((y : PolicyExecutionResult)
              → execute_rules float_of d rules y ≡ some r
              → IsExecuted rules y r)
          → IsExecuted (rule ∷ rules) x r
      by_condition none at k go = cc
      by_condition (some holds) at k go =
          let y = execute_rule rule holds x in
          let rest = go y k in
          let step = execute_rule-IsRound rule holds x in
          record {
            applied =
                rest.applied
                ∙ ap (λ ys. ys ++ later) step.applied
                ∙ append_assoc x.applied_rules (ids_of (fires (some holds) rule) rule) later
                ∙ ap (λ ys. x.applied_rules ++ ys)
                    (ap (λ c. ids_of (fires c rule) rule ++ later) (sym at)
                      ∙ ids_filter (λ q. fires (condition_of float_of d q) q) rule rules);
            blocks =
                or_assoc x.blocked _ _ y.blocked r.blocked rest.blocks
                  (step.blocks ∙ ap (λ c. x.blocked || takes "BLOCK_PROMOTION" c rule) (sym at));
            reviews =
                or_assoc x.requires_review _ _ y.requires_review r.requires_review rest.reviews (
                  step.reviews
                  ∙ ap (λ c. x.requires_review || takes "REQUIRE_REVIEW" c rule) (sym at));
            lowers = omega (arith, rest.lowers, step.lowers);
          }

  -- What a run gives: the profile's rules in the order of their keys, with what they do
  pub record IsRun (profile : ExecutionProfile) (r : PolicyExecutionResult) : Type 0 where
    pub ordered : List ExecutionRule
    pub all_there : Perm ordered profile.rules
    pub in_order : IsOrdered ordered
    pub applied :
        r.applied_rules
        ≡ map
            (λ (rule : ExecutionRule). rule.rule_id)
            (filterb (λ rule. fires (condition_of float_of d rule) rule) ordered)
    pub blocks :
        r.blocked
        ≡ any (λ rule. takes "BLOCK_PROMOTION" (condition_of float_of d rule) rule) ordered
    pub reviews :
        r.requires_review
        ≡ any (λ rule. takes "REQUIRE_REVIEW" (condition_of float_of d rule) rule) ordered
    pub lowers : tier_index r.final_tier ≤ tier_index d.recommended_tier

  execute-IsRun :
      (profile : ExecutionProfile) (r : PolicyExecutionResult)
      → execute float_of d profile ≡ some r
      → IsRun profile r
  unfolding execute
  execute-IsRun profile r h =
      let e = rules-IsExecuted (sort_rules profile.rules) _ r h in
      record {
        ordered = sort_rules profile.rules;
        all_there = sort_rules-Perm profile.rules;
        in_order = sort_rules-IsOrdered profile.rules;
        applied = e.applied;
        blocks = e.blocks;
        reviews = e.reviews;
        lowers = e.lowers;
      }

with_result-ran :
    (d e : TrustDecision) (o : Option PolicyExecutionResult) (r : PolicyExecutionResult)
    → with_result d o ≡ ran e r
    → (o ≡ some r) × (d ≡ e)
unfolding with_result
with_result-ran d e none r h = cc
with_result-ran d e (some q) r h = (cc, cc)

module _ {Moment : Type 0} (fromisoformat : String → Option Moment) (days_since : Moment → Days)
    (upper : String → String) (int_of float_of : String → Option Number)
    (to_float : Number → Option Number) (float_text : Number → String) (promoter : TrustPromoter)
    (claim : Dict String Value) (profile : ExecutionProfile)
    (support_count conflict_count : ℕ) where
  -- A run returns the promoter's decision, and a result for it: the applied rules are those that
  -- fire among the profile's rules, which are all there in an order where no rule has a key (priority,
  -- rule_id) below that of the rule directly before it, promotion is blocked if and only if one of
  -- them blocks it, a review is asked for if and only if one of them asks for it, and the final tier
  -- stands no later in the list of tiers than the recommended one.
  pub run-IsRun :
      (d : TrustDecision) (r : PolicyExecutionResult)
      → run fromisoformat days_since upper int_of float_of to_float float_text promoter claim
          profile support_count conflict_count
        ≡ ran d r
      → (evaluate_claim fromisoformat days_since upper int_of float_of to_float float_text promoter
            claim support_count conflict_count
          ≡ decided d)
        × IsRun float_of d profile r
  unfolding run run_policy
  run-IsRun d r h =
      by_decision
        (evaluate_claim fromisoformat days_since upper int_of float_of to_float float_text promoter
          claim support_count conflict_count)
        h
    where
      by_decision :
          (e : Evaluated)
          → run_policy float_of profile e ≡ ran d r
          → (e ≡ decided d) × IsRun float_of d profile r
      by_decision (decided c) k =
          let (done, same) = with_result-ran c d (execute float_of c profile) r k in
          (
            ap decided same,
            subst (λ q. IsRun float_of q profile r) same (execute-IsRun float_of c profile r done),
          )
      by_decision (refused t m) k = cc
      by_decision unlisted k = cc
      by_decision overflowed k = cc
