-- ===== src/Policy/Engine/Sorted.antt =====
-- `sorted(profile.rules, key=...)` in src/vcse/policy/engine.py puts the rules in the order of their
-- keys.
use mathlib.Core.List.{Perm}
use mathlib.Core.List.Perm
use vcse.Prelude.{◌≡◌, true, false, List, [], ◌∷◌, Bool-cases, inl, inr, arith}
use vcse.Number.{Number, finite, lt, equal}
use vcse.Text.Parts.{str_lt}
use vcse.Text.Order.{str_lt_asym}
use vcse.Policy.Engine.{ExecutionRule, fires_after, insert_rule, sort_rules}

lt_asym : (a b : Number) → lt a b ≡ true → lt b a ≡ false
unfolding lt
lt_asym (finite p n k) (finite q m l) h = ground (arith, h)
lt_asym a b h = ground (arith, h)

equal-lt-false : (a b : Number) → equal a b ≡ true → lt b a ≡ false
unfolding lt equal
equal-lt-false (finite p n k) (finite q m l) h = ground (arith, h)
equal-lt-false a b h = ground (arith, h)

lt-equal-false : (a b : Number) → lt a b ≡ true → equal b a ≡ false
unfolding lt equal
lt-equal-false (finite p n k) (finite q m l) h = ground (arith, h)
lt-equal-false a b h = ground (arith, h)

-- Of two keys, not each is below the other.
fires_after_asym : (a b : ExecutionRule) → fires_after a b ≡ true → fires_after b a ≡ false
fires_after_asym a b h = elim (Bool-cases (lt b.priority a.priority)) [
  | inl below ↦
      ground
        (arith, lt_asym b.priority a.priority below, lt-equal-false b.priority a.priority below)
  | inr other ↦
      let same : equal b.priority a.priority ≡ true = ground (arith, h, other) in
      let named : str_lt b.rule_id a.rule_id ≡ true = ground (arith, h, other) in
      ground
        (arith, equal-lt-false b.priority a.priority same, str_lt_asym b.rule_id a.rule_id named)
]

-- The key of no rule of the list is below that of the rule directly before it.
abbrev pub IsFollowed : ExecutionRule → List ExecutionRule → Type 0
IsFollowed r [] = Unit {0}
IsFollowed r (q ∷ qs) = fires_after r q ≡ false

abbrev pub IsOrdered : List ExecutionRule → Type 0
IsOrdered [] = Unit {0}
IsOrdered (r ∷ rs) = IsFollowed r rs × IsOrdered rs

insert_rule-Perm : (r : ExecutionRule) (qs : List ExecutionRule) → Perm (insert_rule r qs) (r ∷ qs)
unfolding insert_rule
insert_rule-Perm r [] = Perm.rfl
insert_rule-Perm r (q ∷ qs) = elim (Bool-cases (fires_after r q)) [
  | inl after ↦ rw after (Perm.trans (Perm.cons q (insert_rule-Perm r qs)) (Perm.swap r q qs))
  | inr other ↦ rw other Perm.rfl
]

insert_rule-IsFollowed :
    (p r : ExecutionRule) (qs : List ExecutionRule)
    → fires_after p r ≡ false
    → IsFollowed p qs
    → IsFollowed p (insert_rule r qs)
unfolding insert_rule
insert_rule-IsFollowed p r [] h k = h
insert_rule-IsFollowed p r (q ∷ qs) h k = elim (Bool-cases (fires_after r q)) [
  | inl after ↦ rw after k
  | inr other ↦ rw other h
]

insert_rule-IsOrdered :
    (r : ExecutionRule) (qs : List ExecutionRule) → IsOrdered qs → IsOrdered (insert_rule r qs)
unfolding insert_rule
insert_rule-IsOrdered r [] h = (tt, tt)
insert_rule-IsOrdered r (q ∷ qs) (k, h) = elim (Bool-cases (fires_after r q)) [
  | inl after ↦
      rw after
        (insert_rule-IsFollowed q r qs (fires_after_asym r q after) k, insert_rule-IsOrdered r qs h)
  | inr other ↦ rw other (other, (k, h))
]

pub sort_rules-Perm : (rs : List ExecutionRule) → Perm (sort_rules rs) rs
unfolding sort_rules
sort_rules-Perm [] = Perm.rfl
sort_rules-Perm (r ∷ rs) =
    Perm.trans (insert_rule-Perm r (sort_rules rs)) (Perm.cons r (sort_rules-Perm rs))

pub sort_rules-IsOrdered : (rs : List ExecutionRule) → IsOrdered (sort_rules rs)
unfolding sort_rules
sort_rules-IsOrdered [] = tt
sort_rules-IsOrdered (r ∷ rs) = insert_rule-IsOrdered r (sort_rules rs) (sort_rules-IsOrdered rs)
