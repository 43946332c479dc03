-- ===== src/Tests/Policy.antt =====
-- src/vcse/policy on the claim of the trust tests.
use vcse.Prelude.{
  any, not, ◌&&◌, ◌||◌, ◌==◌, ◌≡◌, refl, String, [], ◌∷◌, true, false, contains, string_eq,
}
use vcse.Number.{finite}
use vcse.Value.{text}
use vcse.Trust.Promoter.{evaluate_claim, decided}
use vcse.Policy.Condition.{scalar, string, number}
use vcse.Text.Norm.{strip}
use vcse.Policy.Enforcer.{
  PolicySet, PolicyRule, evaluate, evaluate_relation, rule_matches, has_effect,
}
use vcse.Policy.Enforcer.Blocked.{evaluate_blocks}
use vcse.Policy.Engine.{ExecutionRule, ExecutionProfile, PolicyExecutionResult, ran, run}
use vcse.Policy.Engine.Lowered.{IsRun, run-IsRun}
use vcse.Tests.Trust.{
  moment, days, upper, no_number, to_float, float_text, promoter, claim, claim_decision,
}

abbrev review_rule : ExecutionRule
review_rule = record {
  rule_id = "review-few-proofs";
  condition_field = "proof_count";
  condition_op = "lt";
  condition_value = scalar (number (finite 3 0 0));
  action = "REQUIRE_REVIEW";
  action_params = [];
  priority = finite 2 0 0;
}

abbrev lower_rule : ExecutionRule
lower_rule = record {
  rule_id = "lower-to-T3";
  condition_field = "recommended_tier";
  condition_op = "eq";
  condition_value = scalar (string "T4_VERIFIER_CONSISTENT");
  action = "DOWNGRADE_TRUST";
  action_params = ("target_tier", text "T3_CROSS_SUPPORTED") ∷ [];
  priority = finite 1 0 0;
}

unfoldable profile : ExecutionProfile
profile = record {
  profile_id = "careful";
  description = "two rules";
  rules = review_rule ∷ lower_rule ∷ [];
}

abbrev lowered : PolicyExecutionResult
lowered = record {
  applied_rules = "lower-to-T3" ∷ "review-few-proofs" ∷ [];
  actions_taken = "DOWNGRADE_TRUST" ∷ "REQUIRE_REVIEW" ∷ [];
  final_tier = "T3_CROSS_SUPPORTED";
  annotations = [];
  requires_review = true;
  blocked = false;
}

claim_run :
    run moment days upper no_number no_number to_float float_text promoter claim profile 2 0
    ≡ ran claim_decision lowered
unfolding run vcse.Dict.get vcse.Value.str vcse.Trust.Policy.freshness_for promoter vcse.Number.le
    vcse.Trust.Policy.default_policy vcse.Trust.Scorer.make_registry vcse.Text.Norm.strip
    vcse.Text.Norm.is_space contains profile
claim_run = refl

run-IsRun_example :
    (evaluate_claim moment days upper no_number no_number to_float float_text promoter claim 2 0
      ≡ decided claim_decision)
    × IsRun no_number claim_decision profile lowered
run-IsRun_example =
    run-IsRun moment days upper no_number no_number to_float float_text promoter claim profile 2 0
      claim_decision lowered claim_run

abbrev rule_on : (effect : String) → PolicyRule
rule_on effect = record {
  rule_id = effect;
  effect = effect;
  target_type = "relation";
  target = "is_a";
  reason = "a test";
}

-- The rule that allows stands first.
unfoldable two_rules : PolicySet
two_rules = record {
  policy_id = "two";
  description = "both effects";
  default_effect = "allow";
  rules = rule_on "allow" ∷ rule_on "block" ∷ [];
}

relation_blocked : (evaluate_relation " is_a " two_rules).status ≡ "BLOCKED"
unfolding evaluate_relation two_rules vcse.Prelude.filterb strip vcse.Text.Norm.is_space
relation_blocked = refl

evaluate_blocks_example : ((evaluate "relation" " is_a " two_rules).status == "BLOCKED") ≡ (
    any (λ r. rule_matches "relation" (strip " is_a ") r && has_effect "block" r) two_rules.rules
    || (not (
          any
            (λ r. rule_matches "relation" (strip " is_a ") r && has_effect "allow" r)
            two_rules.rules)
        && two_rules.default_effect == "block"))
evaluate_blocks_example = evaluate_blocks "relation" " is_a " two_rules
