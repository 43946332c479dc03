-- ===== src/Trust/Tiers.antt =====
-- The tiers and their guards: src/vcse/trust/tiers.py, and `_validate_transition_path` of
-- promoter.py. A `TrustError` is its type and its reason.
pub mod Path
use vcse.Prelude.{
  ℕ, ◌-◌, zero, suc, Bool, true, not, ◌||◌, ◌==◌, string_eq, String, Option, none, some, List, [],
  ◌∷◌, contains, if◌then◌else◌, nat_eq,
}
use vcse.Dict.{Dict, get}
use vcse.Memory.Keys.{concat}

abbrev pub tiers : List String
tiers =
    "T0_CANDIDATE" ∷ "T1_PROVENANCED" ∷ "T2_SOURCE_TRUSTED" ∷ "T3_CROSS_SUPPORTED"
    ∷ "T4_VERIFIER_CONSISTENT" ∷ "T5_CERTIFIED" ∷ "T6_DEPRECATED" ∷ "T7_CONFLICTED" ∷ []

-- `_ALLOWED_FORWARD`
abbrev pub allowed_forward : Dict String (List String)
allowed_forward =
    ("T0_CANDIDATE", "T1_PROVENANCED" ∷ [])
    ∷ ("T1_PROVENANCED", "T2_SOURCE_TRUSTED" ∷ [])
    ∷ ("T2_SOURCE_TRUSTED", "T3_CROSS_SUPPORTED" ∷ [])
    ∷ ("T3_CROSS_SUPPORTED", "T4_VERIFIER_CONSISTENT" ∷ [])
    ∷ ("T4_VERIFIER_CONSISTENT", "T5_CERTIFIED" ∷ [])
    ∷ ("T5_CERTIFIED", [])
    ∷ ("T6_DEPRECATED", [])
    ∷ ("T7_CONFLICTED", [])
    ∷ []

unfoldable pub is_valid_tier : String → Bool
is_valid_tier value = contains value tiers

-- `value in {"T7_CONFLICTED", "T6_DEPRECATED"}`
unfoldable pub is_closed_tier : String → Bool
is_closed_tier value = value == "T7_CONFLICTED" || value == "T6_DEPRECATED"

unfoldable pub is_forward : Option (List String) → String → Bool
is_forward none next_tier = contains next_tier []
is_forward (some nexts) next_tier = contains next_tier nexts

unfoldable pub can_transition : (current_tier next_tier : String) → Bool
unfolding is_closed_tier is_forward
can_transition current_tier next_tier =
    if current_tier == next_tier
    then true
    else if is_closed_tier current_tier
    then not true
    else if is_closed_tier next_tier
    then true
    else is_forward (get allowed_forward current_tier) next_tier

pub data Checked : Type 0 where
  fine : Checked
  trust_error : (error_type reason : String) → Checked
  -- what `list.index` and an index out of range raise
  list_error : Checked

unfoldable pub validate_transition : (current_tier next_tier : String) → Checked
unfolding is_valid_tier can_transition
validate_transition current_tier next_tier =
    if not (is_valid_tier current_tier) || not (is_valid_tier next_tier)
    then trust_error "INVALID_TIER"
        (concat ("invalid tier transition " ∷ current_tier ∷ " -> " ∷ next_tier ∷ []))
    else if not (can_transition current_tier next_tier)
    then trust_error "INVALID_TIER_TRANSITION"
        (concat ("cannot transition " ∷ current_tier ∷ " -> " ∷ next_tier ∷ []))
    else fine

-- The list that `_validate_transition_path` walks along
abbrev pub tier_order : List String
tier_order =
    "T0_CANDIDATE" ∷ "T1_PROVENANCED" ∷ "T2_SOURCE_TRUSTED" ∷ "T3_CROSS_SUPPORTED"
    ∷ "T4_VERIFIER_CONSISTENT" ∷ "T5_CERTIFIED" ∷ []

-- `xs.index(x)`, `none` where it raises
unfoldable pub index : List String → String → Option ℕ
index [] x = none
index (y ∷ ys) x =
    let rest = index ys x in
    if y == x then some 0 else elim rest [ none ↦ none | some n ↦ some (suc n) ]

abbrev pub and_then : Checked → Checked → Checked
and_then fine c = c
and_then e c = e

-- The loop, over the order from `start_idx` on, for as many steps as are left
unfoldable pub validate_steps : ℕ → List String → Checked
unfolding validate_transition
validate_steps zero order = fine
validate_steps (suc n) [] = list_error
validate_steps (suc n) (a ∷ []) = list_error
validate_steps (suc n) (a ∷ b ∷ order) =
    and_then (validate_transition a b) (validate_steps n (b ∷ order))

abbrev pub drop : ℕ → List String → List String
drop zero xs = xs
drop (suc n) [] = []
drop (suc n) (x ∷ xs) = drop n xs

-- `_validate_transition_path`
unfoldable pub validate_transition_path : (current_tier target_tier : String) → Checked
unfolding is_closed_tier validate_transition index validate_steps
validate_transition_path current_tier target_tier =
    if is_closed_tier target_tier
    then validate_transition current_tier target_tier
    else elim (index tier_order current_tier) [
      | none ↦ list_error
      | some start_idx ↦ elim (index tier_order target_tier) [
        | none ↦ list_error
        | some target_idx ↦ validate_steps (target_idx - start_idx) (drop start_idx tier_order)
      ]
    ]
