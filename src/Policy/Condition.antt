-- ===== src/Policy/Condition.antt =====
-- The conditions of execution rules: `evaluate_condition` and `get_decision_field` of
-- src/vcse/policy/rules.py. `float(text)` is a parameter.
use Prim.Native.String.{[] as nil, ◌∷◌ as cons}
use vcse.Prelude.{
  Bool, true, false, not, ◌||◌, ◌==◌, string_eq, String, Option, none, some, List, [], ◌∷◌, any,
  map, contains, if◌then◌else◌,
}
use vcse.Number.{Number, finite, lt, le, equal}
use vcse.Text.Parts.{starts_with}
use vcse.Trust.Promoter.{TrustDecision}

-- A value that is no container
pub data Scalar : Type 0 where
  nothing : Scalar
  flag : Bool → Scalar
  number : Number → Scalar
  string : String → Scalar

-- The value of a field of a decision, or the one that a rule compares with: a scalar, a list of
-- scalars, a dict, by its keys, or a list of events.
pub data Datum : Type 0 where
  scalar : Scalar → Datum
  sequence : List Scalar → Datum
  mapping : List String → Datum
  events : Datum

abbrev as_int : Bool → Number
as_int true = finite 1 0 0
as_int false = finite 0 0 0

-- `a == b`; a bool is an int.
unfoldable pub scalar_equal : Scalar → Scalar → Bool
scalar_equal nothing nothing = true
scalar_equal (string a) (string b) = a == b
scalar_equal (flag a) (flag b) = equal (as_int a) (as_int b)
scalar_equal (flag a) (number n) = equal (as_int a) n
scalar_equal (number n) (flag b) = equal n (as_int b)
scalar_equal (number m) (number n) = equal m n
scalar_equal _ _ = false

unfoldable pub scalars_equal : List Scalar → List Scalar → Bool
unfolding scalar_equal
scalars_equal [] [] = true
scalars_equal (a ∷ xs) (b ∷ ys) =
    let rest = scalars_equal xs ys in if scalar_equal a b then rest else false
scalars_equal _ _ = false

-- No field of a decision is a dict, and no rule holds events.
unfoldable pub datum_equal : Datum → Datum → Bool
unfolding scalars_equal
datum_equal (scalar a) (scalar b) = scalar_equal a b
datum_equal (sequence xs) (sequence ys) = scalars_equal xs ys
datum_equal _ _ = false

-- `a in b` for texts
unfoldable pub is_within : (a b : String) → Bool
is_within a nil = starts_with a nil
is_within a (cons c b) = starts_with a (cons c b) || is_within a b

-- `value in container`; `none` is a TypeError.
unfoldable pub is_in : Datum → Datum → Option Bool
unfolding scalar_equal is_within
is_in (scalar a) (sequence items) = some (any (scalar_equal a) items)
is_in _ (sequence items) = some false
is_in (scalar (string a)) (scalar (string b)) = some (is_within a b)
is_in (scalar (string a)) (mapping keys) = some (contains a keys)
is_in (scalar a) (mapping keys) = some false
is_in _ _ = none

-- `TrustDecision`'s fields; any other name reads as None.
unfoldable pub get_decision_field : TrustDecision → (field : String) → Datum
get_decision_field d field =
    if field == "claim_id"
    then scalar (string d.claim_id)
    else if field == "current_tier"
    then scalar (string d.current_tier)
    else if field == "recommended_tier"
    then scalar (string d.recommended_tier)
    else if field == "passed"
    then scalar (flag d.passed)
    else if field == "reasons"
    then sequence (map string d.reasons)
    else if field == "blocking_issues"
    then sequence (map string d.blocking_issues)
    else if field == "ledger_events"
    then events
    else if field == "verification_status"
    then scalar (elim d.verification_status [ none ↦ nothing | some s ↦ string s ])
    else if field == "proof_count"
    then scalar (number (finite d.proof_count 0 0))
    else scalar nothing

module _ (float_of : String → Option Number) where
  -- `float(value)` where it is no number; `none` is a TypeError or a ValueError.
  unfoldable pub to_number : Datum → Option Number
  to_number (scalar (number n)) = some n
  to_number (scalar (flag b)) = some (as_int b)
  to_number (scalar (string s)) = float_of s
  to_number _ = none

  unfoldable pub compare_op : (op : String) → Number → Number → Bool
  compare_op op a b =
      if op == "lt"
      then lt a b
      else if op == "gt"
      then lt b a
      else if op == "lte"
      then le a b
      else if op == "gte"
      then le b a
      else false

  unfoldable pub compare_data : (op : String) → Option Number → Option Number → Bool
  unfolding compare_op
  compare_data op (some a) (some b) = compare_op op a b
  compare_data op _ _ = false

  abbrev negated : Option Bool → Option Bool
  negated none = none
  negated (some b) = some (not b)

  unfoldable pub evaluate_condition :
      (field_value : Datum) → (op : String) → (condition_value : Datum) → Option Bool
  unfolding datum_equal is_in compare_data to_number
  evaluate_condition field_value op condition_value =
      if op == "eq"
      then some (datum_equal field_value condition_value)
      else if op == "ne"
      then some (not (datum_equal field_value condition_value))
      else if op == "in"
      then is_in field_value condition_value
      else if op == "not_in"
      then negated (is_in field_value condition_value)
      else some (compare_data op (to_number field_value) (to_number condition_value))
