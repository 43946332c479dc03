-- ===== src/Policy/Enforcer/Blocked.antt =====
-- When `PolicyEnforcer` (src/vcse/policy/enforcer.py) blocks.
use vcse.Prelude.{
  ◌≡◌, refl, ap, ◌∙◌, Bool, true, false, not, ◌&&◌, ◌||◌, ◌==◌, string_eq, String, Option, none,
  some, List, [], ◌∷◌, any, filterb, first, is_some, if◌then◌else◌,
}
use vcse.Text.Norm.{strip}
use vcse.Policy.Enforcer.{
  PolicyRule, PolicySet, rule_matches, has_effect, decide, decision, evaluate,
}

module _ (p q : PolicyRule → Bool) where
  -- A search in the matches finds a rule if and only if there is one.
  first-any :
      (rules : List PolicyRule)
      → is_some (first (filterb q (filterb p rules))) ≡ any (λ r. p r && q r) rules
  unfolding filterb any
  first-any [] = refl
  first-any (r ∷ rules) = by_match (p r) refl (first-any rules)
    where
      by_effect :
          (c : Bool)
          → q r ≡ c
          → p r ≡ true
          → is_some (first (filterb q (filterb p rules))) ≡ any (λ x. p x && q x) rules
          → is_some (first (filterb q (filterb p (r ∷ rules)))) ≡ any (λ x. p x && q x) (r ∷ rules)
      by_effect true k h rest = rw (h, filterb) (rw (k, filterb) refl)
      by_effect false k h rest = rw (h, filterb) (rw (k, filterb) rest)

      by_match :
          (b : Bool)
          → p r ≡ b
          → is_some (first (filterb q (filterb p rules))) ≡ any (λ x. p x && q x) rules
          → is_some (first (filterb q (filterb p (r ∷ rules)))) ≡ any (λ x. p x && q x) (r ∷ rules)
      by_match true h rest = by_effect (q r) refl h rest
      by_match false h rest = rw (h, filterb) rest

decide_blocks :
    (policy : PolicySet) (t target : String) (o a : Option PolicyRule)
    → ((decide policy t target o a).status == "BLOCKED")
      ≡ (is_some o || (not (is_some a) && policy.default_effect == "block"))
unfolding decide decision
decide_blocks policy t target (some r) a = refl
decide_blocks policy t target none (some r) = refl
decide_blocks policy t target none none = by_default (policy.default_effect == "block")
  where
    by_default :
        (b : Bool)
        → ((if b
              then decision policy t target "BLOCKED" none "blocked by policy default_effect=block"
              else decision policy t target "ALLOWED" none
                  "allowed by policy default_effect=allow").status
            == "BLOCKED")
          ≡ b
    by_default true = refl
    by_default false = refl

-- A target is blocked exactly if there is a matching rule that blocks, or if there is no matching
-- rule that allows and the default is to block, wherever the rules stand in the list.
pub evaluate_blocks :
    (target_type target : String) (policy : PolicySet)
    → ((evaluate target_type target policy).status == "BLOCKED") ≡ (
        any (λ r. rule_matches target_type (strip target) r && has_effect "block" r) policy.rules
        || (not (
              any
                (λ r. rule_matches target_type (strip target) r && has_effect "allow" r)
                policy.rules)
            && policy.default_effect == "block"))
unfolding evaluate
evaluate_blocks t target policy =
    let p = rule_matches t (strip target) in
    decide_blocks policy t (strip target) _ _
    ∙ ap
        (λ b.
          b
          || (not (is_some (first (filterb (has_effect "allow") (filterb p policy.rules))))
              && policy.default_effect == "block"))
        (first-any p (has_effect "block") policy.rules)
    ∙ ap
        (λ b.
          any (λ r. p r && has_effect "block" r) policy.rules
          || (not b && policy.default_effect == "block"))
        (first-any p (has_effect "allow") policy.rules)
