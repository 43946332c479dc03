-- ===== src/Number.antt =====
-- The numbers of constraints and symbol bindings: Python's `int | float`, which compare exactly.
-- A finite float is a fraction with a power of two below, as is an integer.
pub mod Order
use vcse.Prelude.{ℕ, ◌+◌, ◌*◌, ◌^◌, Bool, true, false, not, ◌||◌, ltb, nat_beq}

pub data Number : Type 0 where
  -- (plus - minus) / 2 ^ scale
  finite : (plus minus scale : ℕ) → Number
  infinite neg_infinite nan : Number

-- a < b and a == b, cross-multiplied. Nothing is below, above or equal to NaN.
unfoldable pub lt : Number → Number → Bool
lt (finite p n k) (finite q m l) = ltb (p * 2 ^ l + m * 2 ^ k) (q * 2 ^ k + n * 2 ^ l)
lt (finite p n k) infinite = true
lt neg_infinite (finite p n k) = true
lt neg_infinite infinite = true
lt _ _ = false

unfoldable pub equal : Number → Number → Bool
equal (finite p n k) (finite q m l) = nat_beq (p * 2 ^ l + m * 2 ^ k) (q * 2 ^ k + n * 2 ^ l)
equal infinite infinite = true
equal neg_infinite neg_infinite = true
equal _ _ = false

unfoldable pub le : Number → Number → Bool
unfolding lt equal
le a b = lt a b || equal a b

-- VALID_OPERATORS of src/vcse/memory/constraints.py
pub data Operator : Type 0 where
  gt ge lt_op le_op eq_op ne_op : Operator

-- `compare_numeric` of src/vcse/verifier/constraint_verifier.py
unfoldable pub compare_numeric : Number → Operator → Number → Bool
unfolding lt le equal
compare_numeric left gt right = lt right left
compare_numeric left ge right = le right left
compare_numeric left lt_op right = lt left right
compare_numeric left le_op right = le left right
compare_numeric left eq_op right = equal left right
compare_numeric left ne_op right = not (equal left right)
