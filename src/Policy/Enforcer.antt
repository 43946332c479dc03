-- ===== src/Policy/Enforcer.antt =====
-- `PolicyEnforcer` of src/vcse/policy/enforcer.py with the records of model.py.
pub mod Blocked
use vcse.Prelude.{
  Bool, ◌&&◌, ◌==◌, string_eq, String, Option, none, some, List, [], first, filterb, if◌then◌else◌,
}
use vcse.Value.{Value}
use vcse.Dict.{Dict}
use vcse.Text.Norm.{strip}
use vcse.Trust.Staleness.{text_of}

pub record PolicyRule : Type 0 where
  pub rule_id : String
  pub effect : String
  pub target_type : String
  pub target : String
  pub reason : String

pub record PolicySet : Type 0 where
  pub policy_id : String
  pub description : String
  pub default_effect : String
  pub rules : List PolicyRule

pub record PolicyDecision : Type 0 where
  pub status : String
  pub policy_id : String
  pub target_type : String
  pub target : String
  pub matched_rule_id : Option String
  pub reason : String

-- `DEFAULT_POLICY` of defaults.py
abbrev pub default_policy_set : PolicySet
default_policy_set = record {
  policy_id = "default_open_policy";
  description = "Allows existing VCSE behavior unless explicit policy blocks are configured.";
  default_effect = "allow";
  rules = [];
}

unfoldable pub rule_matches : (target_type target : String) → PolicyRule → Bool
rule_matches target_type target rule = rule.target_type == target_type && rule.target == target

unfoldable pub has_effect : String → PolicyRule → Bool
has_effect effect rule = rule.effect == effect

unfoldable pub decision :
    PolicySet
    → (target_type target status : String) → Option String
    → (reason : String) → PolicyDecision
decision policy target_type target status rule reason = record {
  status = status;
  policy_id = policy.policy_id;
  target_type = target_type;
  target = target;
  matched_rule_id = rule;
  reason = reason;
}

-- The part of `_evaluate` after the two searches
unfoldable pub decide :
    PolicySet
    → (target_type target : String) → Option PolicyRule
    → Option PolicyRule
    → PolicyDecision
unfolding decision
decide policy t target (some rule) allowed =
    decision policy t target "BLOCKED" (some rule.rule_id) rule.reason
decide policy t target none (some rule) =
    decision policy t target "ALLOWED" (some rule.rule_id) rule.reason
decide policy t target none none =
    if policy.default_effect == "block"
    then decision policy t target "BLOCKED" none "blocked by policy default_effect=block"
    else decision policy t target "ALLOWED" none "allowed by policy default_effect=allow"

-- `_evaluate`
unfoldable pub evaluate : (target_type target : String) → PolicySet → PolicyDecision
unfolding rule_matches has_effect decide
evaluate target_type target policy =
    let clean_target = strip target in
    let matches = filterb (rule_matches target_type clean_target) policy.rules in
    decide policy target_type clean_target (first (filterb (has_effect "block") matches))
      (first (filterb (has_effect "allow") matches))

unfoldable pub evaluate_relation : (relation : String) → PolicySet → PolicyDecision
unfolding evaluate
evaluate_relation relation policy = evaluate "relation" relation policy

unfoldable pub evaluate_pack : (pack_id : String) → PolicySet → PolicyDecision
unfolding evaluate
evaluate_pack pack_id policy = evaluate "pack" pack_id policy

unfoldable pub evaluate_domain : (domain : String) → PolicySet → PolicyDecision
unfolding evaluate
evaluate_domain domain policy = evaluate "domain" domain policy

unfoldable pub evaluate_inference_rule : (rule_id : String) → PolicySet → PolicyDecision
unfolding evaluate
evaluate_inference_rule rule_id policy = evaluate "inference_rule" rule_id policy

-- `evaluate_claim` of a claim that is a dict
unfoldable pub evaluate_policy_claim : Dict String Value → PolicySet → PolicyDecision
unfolding evaluate_relation text_of
evaluate_policy_claim claim policy = evaluate_relation (strip (text_of claim "relation" "")) policy
