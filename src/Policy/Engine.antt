-- ===== src/Policy/Engine.antt =====
-- `PolicyExecutionEngine` of src/vcse/policy/engine.py, with the rules of rules.py and the actions
-- of actions.py, and `PolicyExecutor` of executor.py.
mod Round
pub mod Sorted
pub mod Lowered
use vcse.Prelude.{
  ℕ, zero, suc, Bool, true, false, not, ◌==◌, ◌&&◌, string_eq, String, Option, none, some, List, [],
  ◌∷◌, ◌++◌, contains, ltb, if◌then◌else◌,
}
use vcse.Number.{Number, lt, equal}
use vcse.Value.{Value}
use vcse.Dict.{Dict}
use vcse.Memory.Keys.{concat}
use vcse.Text.Parts.{str_lt}
use vcse.Trust.Staleness.{Days, text_of}
use vcse.Trust.Tiers.{tiers, index}
use vcse.Trust.Promoter.{TrustDecision, TrustPromoter, Evaluated, decided, evaluate_claim}
use vcse.Policy.Condition.{Datum, get_decision_field, evaluate_condition}

pub record ExecutionRule : Type 0 where
  pub rule_id : String
  pub condition_field : String
  pub condition_op : String
  pub condition_value : Datum
  pub action : String
  pub action_params : Dict String Value
  pub priority : Number

pub record ExecutionProfile : Type 0 where
  pub profile_id : String
  pub description : String
  pub rules : List ExecutionRule

-- `ALLOWED_ACTIONS`
abbrev pub allowed_actions : List String
allowed_actions =
    "DOWNGRADE_TRUST" ∷ "BLOCK_PROMOTION" ∷ "REQUIRE_REVIEW" ∷ "FLAG_CONFLICT" ∷ "ANNOTATE_ONLY"
    ∷ []

-- `_tier_index` plus one, so that an unknown tier has 0
unfoldable pub tier_index : String → ℕ
unfolding index
tier_index tier = elim (index tiers tier) [ none ↦ 0 | some n ↦ suc n ]

-- Whether the key (priority, rule_id) of `b` is below that of `a`
abbrev pub fires_after : ExecutionRule → ExecutionRule → Bool
fires_after a b =
    if lt b.priority a.priority
    then true
    else equal b.priority a.priority && str_lt b.rule_id a.rule_id

unfoldable pub insert_rule : ExecutionRule → List ExecutionRule → List ExecutionRule
insert_rule r [] = r ∷ []
insert_rule r (q ∷ qs) =
    let rest = insert_rule r qs in if fires_after r q then q ∷ rest else r ∷ q ∷ qs

-- `sorted(profile.rules, key=...)`
unfoldable pub sort_rules : List ExecutionRule → List ExecutionRule
unfolding insert_rule
sort_rules [] = []
sort_rules (r ∷ rs) = insert_rule r (sort_rules rs)

-- `PolicyExecutionResult`, and the variables of the loop
pub record PolicyExecutionResult : Type 0 where
  pub applied_rules : List String
  pub actions_taken : List String
  pub final_tier : String
  pub annotations : List String
  pub requires_review : Bool
  pub blocked : Bool

abbrev downgrade : (target : String) → PolicyExecutionResult → PolicyExecutionResult
downgrade target x = record {
  applied_rules = x.applied_rules;
  actions_taken = x.actions_taken ++ "DOWNGRADE_TRUST" ∷ [];
  final_tier = target;
  annotations = x.annotations;
  requires_review = x.requires_review;
  blocked = x.blocked;
}

abbrev block_promotion : PolicyExecutionResult → PolicyExecutionResult
block_promotion x = record {
  applied_rules = x.applied_rules;
  actions_taken = x.actions_taken ++ "BLOCK_PROMOTION" ∷ [];
  final_tier = x.final_tier;
  annotations = x.annotations;
  requires_review = x.requires_review;
  blocked = true;
}

abbrev require_review : PolicyExecutionResult → PolicyExecutionResult
require_review x = record {
  applied_rules = x.applied_rules;
  actions_taken = x.actions_taken ++ "REQUIRE_REVIEW" ∷ [];
  final_tier = x.final_tier;
  annotations = x.annotations;
  requires_review = true;
  blocked = x.blocked;
}

abbrev annotate : (action message : String) → PolicyExecutionResult → PolicyExecutionResult
annotate action message x = record {
  applied_rules = x.applied_rules;
  actions_taken = x.actions_taken ++ action ∷ [];
  final_tier = x.final_tier;
  annotations = x.annotations ++ message ∷ [];
  requires_review = x.requires_review;
  blocked = x.blocked;
}

-- `applied_rules.append(rule.rule_id)`
abbrev pub note_rule : ExecutionRule → PolicyExecutionResult → PolicyExecutionResult
note_rule rule x = record {
  applied_rules = x.applied_rules ++ rule.rule_id ∷ [];
  actions_taken = x.actions_taken;
  final_tier = x.final_tier;
  annotations = x.annotations;
  requires_review = x.requires_review;
  blocked = x.blocked;
}

-- The branch of DOWNGRADE_TRUST
unfoldable pub lower_to : (target : String) → PolicyExecutionResult → PolicyExecutionResult
unfolding tier_index
lower_to target x =
    if ltb (tier_index target) (tier_index x.final_tier) then downgrade target x else x

-- The branches on the action
unfoldable pub take_action : ExecutionRule → PolicyExecutionResult → PolicyExecutionResult
unfolding text_of lower_to
take_action rule x =
    if rule.action == "DOWNGRADE_TRUST"
    then lower_to (text_of rule.action_params "target_tier" x.final_tier) x
    else if rule.action == "BLOCK_PROMOTION"
    then block_promotion x
    else if rule.action == "REQUIRE_REVIEW"
    then require_review x
    else if rule.action == "FLAG_CONFLICT"
    then annotate "FLAG_CONFLICT"
        (text_of rule.action_params "message"
          (concat ("conflict flagged by rule " ∷ rule.rule_id ∷ [])))
        x
    else if rule.action == "ANNOTATE_ONLY"
    then annotate "ANNOTATE_ONLY"
        (text_of rule.action_params "message" (concat ("annotated by rule " ∷ rule.rule_id ∷ []))) x
    else x

-- A round of the loop, with the value of the condition
unfoldable pub execute_rule : ExecutionRule → Bool → PolicyExecutionResult → PolicyExecutionResult
unfolding take_action
execute_rule rule holds x =
    if not holds
    then x
    else if not (contains rule.action allowed_actions)
    then x
    else take_action rule (note_rule rule x)

module _ (float_of : String → Option Number) where
  unfoldable pub condition_of : TrustDecision → ExecutionRule → Option Bool
  unfolding evaluate_condition get_decision_field
  condition_of d rule =
      evaluate_condition float_of (get_decision_field d rule.condition_field) rule.condition_op
        rule.condition_value

  -- The loop; `none` is the TypeError of a condition.
  unfoldable pub execute_rules :
      TrustDecision → List ExecutionRule → PolicyExecutionResult → Option PolicyExecutionResult
  unfolding condition_of execute_rule
  execute_rules d [] x = some x
  execute_rules d (rule ∷ rules) x = elim (condition_of d rule) [
    | none ↦ none
    | some holds ↦ execute_rules d rules (execute_rule rule holds x)
  ]

  abbrev start : TrustDecision → PolicyExecutionResult
  start d = record {
    applied_rules = [];
    actions_taken = [];
    final_tier = d.recommended_tier;
    annotations = [];
    requires_review = false;
    blocked = false;
  }

  unfoldable pub execute : TrustDecision → ExecutionProfile → Option PolicyExecutionResult
  unfolding execute_rules sort_rules
  execute d profile = execute_rules d (sort_rules profile.rules) (start d)

-- What `run` returns or raises: an exception of the promoter, or a TypeError of a condition
pub data Ran : Type 0 where
  ran : TrustDecision → PolicyExecutionResult → Ran
  undecided : Evaluated → Ran
  type_error : Ran

unfoldable pub with_result : TrustDecision → Option PolicyExecutionResult → Ran
with_result d none = type_error
with_result d (some r) = ran d r

unfoldable pub run_policy : (float_of : String → Option Number) → ExecutionProfile → Evaluated → Ran
unfolding with_result execute
run_policy float_of profile (decided d) = with_result d (execute float_of d profile)
run_policy float_of profile other = undecided other

module _ {Moment : Type 0} (fromisoformat : String → Option Moment) (days_since : Moment → Days)
    (upper : String → String) (int_of float_of : String → Option Number)
    (to_float : Number → Option Number) (float_text : Number → String) where
  -- `PolicyExecutor.run`
  unfoldable pub run :
      TrustPromoter
      → Dict String Value
      → ExecutionProfile
      → (support_count conflict_count : ℕ) → Ran
  unfolding run_policy evaluate_claim
  run promoter claim profile support_count conflict_count = run_policy float_of profile (
      evaluate_claim fromisoformat days_since upper int_of float_of to_float float_text promoter
        claim support_count conflict_count)
