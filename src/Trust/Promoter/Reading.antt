-- ===== src/Trust/Promoter/Reading.antt =====
-- What `TrustPromoter.evaluate_claim` (src/vcse/trust/promoter.py) reads from a claim.
use vcse.Prelude.{
  ℕ, ◌-◌, ◌/◌, ◌^◌, Bool, true, false, not, ◌||◌, ◌==◌, string_eq, nat_eq, String, Option, none,
  some, List, [], ◌∷◌, length, is_empty, if◌then◌else◌,
}
use vcse.Number.{Number, finite, infinite, neg_infinite, nan}
use vcse.Value.{Value, null, boolean, num, text, status, texts, dict, other, str, status_value}
use vcse.Dict.{Dict, get}
use vcse.Text.Norm.{strip}
use vcse.Trust.Staleness.{text_of}

-- `bool(value)`
unfoldable pub truthy : Value → Bool
truthy null = false
truthy (boolean b) = b
truthy (num (finite p n k) s) = not (p == n)
truthy (num _ s) = true
truthy (text s) = not (s == "")
truthy (status t) = true
truthy (texts items s) = not (is_empty items)
truthy (dict items s) = not (is_empty items)
truthy (other s) = true

unfoldable pub is_truthy : Option Value → Bool
unfolding truthy
is_truthy none = false
is_truthy (some v) = truthy v

-- `str(claim.get("claim_id", claim.get("id", "claim")))`
unfoldable pub claim_id_of : Dict String Value → String
unfolding text_of
claim_id_of claim = text_of claim "claim_id" (text_of claim "id" "claim")

unfoldable pub has_provenance : Dict String Value → Bool
unfolding is_truthy
has_provenance claim =
    is_truthy (get claim "provenance")
    || is_truthy (get claim "source_id")
    || is_truthy (get claim "source")

-- `str(claim.get("source_id") or claim.get("source", "unknown"))`
unfoldable pub source_of : Dict String Value → String
unfolding is_truthy text_of
source_of claim =
    if is_truthy (get claim "source_id")
    then text_of claim "source_id" ""
    else text_of claim "source" "unknown"

module _ (upper : String → String) where
  -- `verification_status`: an enum member counts by its value.
  unfoldable pub verification_status_of : Option Value → Option String
  verification_status_of none = none
  verification_status_of (some null) = none
  verification_status_of (some (status t)) = some (upper (strip (status_value t)))
  verification_status_of (some v) = some (upper (strip (str v)))

-- `max(0, int(x))`, where an infinity is an OverflowError that nothing catches
pub data Count : Type 0 where
  counted : ℕ → Count
  overflow : Count

unfoldable pub count_of_number : Number → Count
count_of_number (finite p n k) = counted ((p - n) / 2 ^ k)
count_of_number infinite = overflow
count_of_number neg_infinite = overflow
count_of_number nan = counted 0

module _ (int_of : String → Option Number) where
  -- `max(0, int(proof_count_raw))`, with 0 for a TypeError or a ValueError
  unfoldable pub count_of : Value → Count
  unfolding count_of_number
  count_of (boolean b) = counted (if b then 1 else 0)
  count_of (num n s) = count_of_number n
  count_of (text s) = elim (int_of s) [ none ↦ counted 0 | some n ↦ count_of_number n ]
  count_of _ = counted 0

  -- The length of the proof trace, where no count is given
  unfoldable pub trace_length : Option Value → Count
  trace_length (some (texts items s)) = counted (length items)
  trace_length _ = counted 0

  unfoldable pub proof_count_of : Dict String Value → Count
  unfolding count_of trace_length
  proof_count_of claim = elim (get claim "proof_count") [
    | none ↦ trace_length (get claim "proof_trace")
    | some null ↦ trace_length (get claim "proof_trace")
    | some v ↦ count_of v
  ]

-- A confidence that is read or is not there, or the OverflowError of `float(n)` for an int that no
-- float is near, which nothing catches
pub data Confidence : Type 0 where
  missing : Confidence
  read : Number → Confidence
  too_large : Confidence

unfoldable pub read_float : Option Number → Confidence
read_float none = too_large
read_float (some n) = read n

-- `to_float` is `float(n)` of a number, `none` for an OverflowError; `float_of` that of a text, `none`
-- for a ValueError.
module _ (float_of : String → Option Number) (to_float : Number → Option Number) where
  -- `float(value)`, with NaN for a TypeError or a ValueError
  unfoldable pub float_value : Value → Confidence
  unfolding read_float
  float_value (boolean b) = read (if b then finite 1 0 0 else finite 0 0 0)
  float_value (num n s) = read_float (to_float n)
  float_value (text s) = elim (float_of s) [ none ↦ read nan | some n ↦ read n ]
  float_value _ = read nan

  -- `_extract_verifier_confidence`: the first of the keys that is there
  unfoldable pub first_confidence : Dict String Value → List String → Confidence
  unfolding float_value
  first_confidence claim [] = missing
  first_confidence claim (key ∷ more) =
      let rest = first_confidence claim more in
      elim (get claim key) [ none ↦ rest | some v ↦ float_value v ]

  unfoldable pub verifier_confidence_of : Dict String Value → Confidence
  unfolding first_confidence
  verifier_confidence_of claim =
      first_confidence claim ("verifier_confidence" ∷ "verifier_score" ∷ "confidence" ∷ [])
