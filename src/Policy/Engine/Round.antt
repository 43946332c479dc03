-- ===== src/Policy/Engine/Round.antt =====
-- What one rule does in `PolicyExecutionEngine.execute` (src/vcse/policy/engine.py).
use text.Mathlib.TextEquality.{eq_iff}
use vcse.Prelude.{
  ℕ, ◌≤◌, ◌≡◌, refl, sym, ap, ◌∙◌, Bool, true, false, not, ◌&&◌, ◌||◌, ◌==◌, string_eq, String,
  Option, none, some, List, [], ◌∷◌, ◌++◌, contains, ltb, if_both, arith, append-nil,
}
use vcse.Trust.Staleness.{text_of}
use vcse.Policy.Engine.{
  ExecutionRule, PolicyExecutionResult, allowed_actions, tier_index, take_action, note_rule,
  lower_to, execute_rule,
}

-- The condition holds and the action is an allowed one.
unfoldable pub fires : Option Bool → ExecutionRule → Bool
fires none rule = false
fires (some holds) rule = holds && contains rule.action allowed_actions

-- The action is taken by a rule that fires.
unfoldable pub takes : (action : String) → Option Bool → ExecutionRule → Bool
unfolding fires
takes action holds rule = fires holds rule && rule.action == action

abbrev pub ids_of : Bool → ExecutionRule → List String
ids_of true rule = rule.rule_id ∷ []
ids_of false rule = []

other_action : (a l m : String) → (a == l) ≡ true → (l == m) ≡ false → (a == m) ≡ false
other_action a l m h k = ap (λ t. t == m) ((eq_iff a l).0 h) ∙ k

-- What taking an action keeps
abbrev IsTaken : ExecutionRule → PolicyExecutionResult → PolicyExecutionResult → Type 0
IsTaken rule x y =
    (y.applied_rules ≡ x.applied_rules)
    × (y.blocked ≡ (x.blocked || rule.action == "BLOCK_PROMOTION"))
    × (y.requires_review ≡ (x.requires_review || rule.action == "REQUIRE_REVIEW"))
    × (tier_index y.final_tier ≤ tier_index x.final_tier)

pub or_false : (a b : Bool) → b ≡ false → a ≡ (a || b)
or_false a b h = ground (arith, h)

or_true : (a b : Bool) → b ≡ true → true ≡ (a || b)
or_true a b h = ground (arith, h)

ltb_le : (a b : ℕ) → ltb a b ≡ true → a ≤ b
ltb_le a b h = ground (arith, h)

lower_to-IsTaken :
    (rule : ExecutionRule) (target : String) (x : PolicyExecutionResult)
    → (rule.action == "BLOCK_PROMOTION") ≡ false
    → (rule.action == "REQUIRE_REVIEW") ≡ false
    → IsTaken rule x (lower_to target x)
unfolding lower_to
lower_to-IsTaken rule target x b r =
    if_both (IsTaken rule x) (ltb (tier_index target) (tier_index x.final_tier)) _ x
      (λ below. (refl, or_false x.blocked _ b, or_false x.requires_review _ r, ltb_le _ _ below))
      (λ _. (refl, or_false x.blocked _ b, or_false x.requires_review _ r, omega arith))

take_action-IsTaken :
    (rule : ExecutionRule) (x : PolicyExecutionResult) → IsTaken rule x (take_action rule x)
unfolding take_action
take_action-IsTaken rule x =
    let a = rule.action in
    let P : PolicyExecutionResult → Type 0 = IsTaken rule x in
    if_both P (a == "DOWNGRADE_TRUST") _ _
      (λ h.
        lower_to-IsTaken rule (text_of rule.action_params "target_tier" x.final_tier) x
          (other_action a "DOWNGRADE_TRUST" "BLOCK_PROMOTION" h refl)
          (other_action a "DOWNGRADE_TRUST" "REQUIRE_REVIEW" h refl))
      (λ _.
        if_both P (a == "BLOCK_PROMOTION") _ _
          (λ b. (
            refl,
            or_true x.blocked _ b,
            or_false x.requires_review _ (other_action a "BLOCK_PROMOTION" "REQUIRE_REVIEW" b refl),
            omega arith,
          ))
          (λ b.
            if_both P (a == "REQUIRE_REVIEW") _ _
              (λ r. (refl, or_false x.blocked _ b, or_true x.requires_review _ r, omega arith))
              (λ r.
                if_both P (a == "FLAG_CONFLICT") _ _
                  (λ _. (refl, or_false x.blocked _ b, or_false x.requires_review _ r, omega arith))
                  (λ _.
                    if_both P (a == "ANNOTATE_ONLY") _ _
                      (λ _.
                        (refl, or_false x.blocked _ b, or_false x.requires_review _ r, omega arith))
                      (λ _. (
                        refl,
                        or_false x.blocked _ b,
                        or_false x.requires_review _ r,
                        omega arith,
                      ))))))

-- The same for a round of the loop, which notes the rule if it fires
pub record IsRound (rule : ExecutionRule) (holds : Bool) (x y : PolicyExecutionResult)
    : Type 0 where
  pub applied : y.applied_rules ≡ x.applied_rules ++ ids_of (fires (some holds) rule) rule
  pub blocks : y.blocked ≡ (x.blocked || takes "BLOCK_PROMOTION" (some holds) rule)
  pub reviews : y.requires_review ≡ (x.requires_review || takes "REQUIRE_REVIEW" (some holds) rule)
  pub lowers : tier_index y.final_tier ≤ tier_index x.final_tier

quiet-IsRound :
    (rule : ExecutionRule) (holds : Bool) (x : PolicyExecutionResult)
    → fires (some holds) rule ≡ false
    → IsRound rule holds x x
unfolding takes
quiet-IsRound rule holds x h = record {
  applied = sym (ap (λ b. x.applied_rules ++ ids_of b rule) h ∙ append-nil x.applied_rules);
  blocks = or_false x.blocked _ (ap (λ b. b && rule.action == "BLOCK_PROMOTION") h);
  reviews = or_false x.requires_review _ (ap (λ b. b && rule.action == "REQUIRE_REVIEW") h);
  lowers = omega arith;
}

firing-IsRound :
    (rule : ExecutionRule) (holds : Bool) (x y z : PolicyExecutionResult)
    → fires (some holds) rule ≡ true
    → y.applied_rules ≡ x.applied_rules ++ rule.rule_id ∷ []
    → y.blocked ≡ x.blocked
    → y.requires_review ≡ x.requires_review
    → y.final_tier ≡ x.final_tier
    → IsTaken rule y z
    → IsRound rule holds x z
unfolding takes
firing-IsRound rule holds x y z h noted b r t (noted', b', r', t') = record {
  applied = noted' ∙ noted ∙ sym (ap (λ f. x.applied_rules ++ ids_of f rule) h);
  blocks = ground (arith, b', b, h);
  reviews = ground (arith, r', r, h);
  lowers = omega (arith, t', ap tier_index t);
}

pub execute_rule-IsRound :
    (rule : ExecutionRule) (holds : Bool) (x : PolicyExecutionResult)
    → IsRound rule holds x (execute_rule rule holds x)
unfolding execute_rule fires
execute_rule-IsRound rule holds x =
    if_both (IsRound rule holds x) (not holds) x _ (λ h. quiet-IsRound rule holds x (quiet h))
      (λ h.
        if_both (IsRound rule holds x) (not (contains rule.action allowed_actions)) x _
          (λ k. quiet-IsRound rule holds x (not_allowed k))
          (λ k.
            firing-IsRound rule holds x (note_rule rule x) _ (firing h k) refl refl refl refl
              (take_action-IsTaken rule _)))
  where
    quiet : not holds ≡ true → fires (some holds) rule ≡ false
    quiet h = ground (arith, h)

    not_allowed :
        not (contains rule.action allowed_actions) ≡ true → fires (some holds) rule ≡ false
    not_allowed h = ground (arith, h)

    firing :
        not holds ≡ false
        → not (contains rule.action allowed_actions) ≡ false
        → fires (some holds) rule ≡ true
    firing h k = ground (arith, h, k)
