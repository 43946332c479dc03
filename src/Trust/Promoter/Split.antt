-- ===== src/Trust/Promoter/Split.antt =====
-- How `TrustPromoter.evaluate_claim` (src/vcse/trust/promoter.py) is split by what it reads.
use vcse.Prelude.{ℕ, ◌≡◌, refl, Option, none, some, String}
use vcse.Number.{Number}
use vcse.Value.{Value}
use vcse.Dict.{Dict}
use vcse.Trust.Staleness.{Days, StalenessResult, evaluate_staleness}
use vcse.Trust.Promoter.{
  TrustPromoter, Evaluated, overflowed, evaluate_read, with_staleness, with_confidence, with_count,
  evaluate_claim,
}
use vcse.Trust.Promoter.Reading.{
  Count, counted, overflow, Confidence, missing, read, too_large, proof_count_of,
  verifier_confidence_of,
}

module _ (P : Evaluated → Type 0) where
  with_staleness-all :
      (next : StalenessResult → Evaluated) (o : Option StalenessResult)
      → ((s : StalenessResult) → P (next s))
      → (o ≡ none → P overflowed)
      → P (with_staleness next o)
  unfolding with_staleness
  with_staleness-all next none h k = k refl
  with_staleness-all next (some s) h k = h s

  with_confidence-all :
      (next : Option Number → Evaluated) (c : Confidence)
      → ((o : Option Number) → P (next o))
      → (c ≡ too_large → P overflowed)
      → P (with_confidence next c)
  unfolding with_confidence
  with_confidence-all next missing h k = h none
  with_confidence-all next (read n) h k = h (some n)
  with_confidence-all next too_large h k = k refl

  with_count-all :
      (next : ℕ → Evaluated) (c : Count)
      → ((n : ℕ) → P (next n))
      → (c ≡ overflow → P overflowed)
      → P (with_count next c)
  unfolding with_count
  with_count-all next (counted n) h k = h n
  with_count-all next overflow h k = k refl

  module _ {Moment : Type 0} (fromisoformat : String → Option Moment) (days_since : Moment → Days)
      (upper : String → String) (int_of float_of : String → Option Number)
      (to_float : Number → Option Number) (float_text : Number → String) (t : TrustPromoter)
      (claim : Dict String Value) (support_count conflict_count : ℕ) where
    -- What holds of the evaluation of whatever is read, and of each OverflowError, holds of the end.
    pub evaluate_claim_split :
        ((n : ℕ) (c : Option Number) (s : StalenessResult)
          → P (evaluate_read upper float_text t claim support_count conflict_count n c s))
        → (proof_count_of int_of claim ≡ overflow → P overflowed)
        → (verifier_confidence_of float_of to_float claim ≡ too_large → P overflowed)
        → (evaluate_staleness fromisoformat days_since claim t.staleness_policy ≡ none
            → P overflowed)
        → P (
            evaluate_claim fromisoformat days_since upper int_of float_of to_float float_text t
              claim support_count conflict_count)
    unfolding evaluate_claim
    evaluate_claim_split h no_count no_confidence no_age =
        with_count-all _ (proof_count_of int_of claim)
          (λ n.
            with_confidence-all _ (verifier_confidence_of float_of to_float claim)
              (λ c.
                with_staleness-all
                  (evaluate_read upper float_text t claim support_count conflict_count n c)
                  (evaluate_staleness fromisoformat days_since claim t.staleness_policy) (h n c)
                  no_age)
              no_confidence)
          no_count
