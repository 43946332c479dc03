-- ===== src/Trust/Promoter/Climb.antt =====
-- `TrustPromoter.evaluate_claim` (src/vcse/trust/promoter.py) without conflicts: it decides, and it
-- never recommends a lower tier.
use text.Mathlib.TextEquality.{eq_iff}
use vcse.Prelude.{
  ℕ, ◌≤◌, ◌≡◌, ◌≢◌, refl, ap, ◌∙◌, false, not, ◌==◌, string_eq, nat_eq, String, Option, none,
  Bool-cases, inl, inr, if◌then◌else◌, arith,
}
use vcse.Number.{Number}
use vcse.Value.{Value}
use vcse.Dict.{Dict}
use vcse.Trust.Staleness.{Days, StalenessResult, text_of, evaluate_staleness}
use vcse.Trust.Tiers.{validate_transition_path, fine}
use vcse.Trust.Tiers.Path.{order_fine}
use vcse.Trust.Promoter.{
  TrustPromoter, TrustDecision, Evaluated, decided, decision_of, conclude, evidence_of,
  evaluate_read, evaluate_claim, decide,
}
use vcse.Trust.Promoter.Reading.{
  overflow, too_large, proof_count_of, verifier_confidence_of, claim_id_of,
}
use vcse.Trust.Promoter.Split.{evaluate_claim_split}
use vcse.Trust.Promoter.Rise.{tier_rank, Climbs, final-Climbs}
use vcse.Trust.Promoter.Stages.{Evidence, Progress, final_progress}

conclude-Climbs :
    (id current : String) (e : Evidence) (p : Progress)
    → Climbs current p
    → conclude id current e p ≡ decided (decision_of id current e p)
unfolding conclude
conclude-Climbs id current e p h = elim (Bool-cases (p.target == current)) [
  | inl same ↦ ap (λ b. if not b then refused_or else decided made) same
  | inr other ↦
      ap (λ b. if not b then refused_or else decided made) other
      ∙ ap (λ c. decide c made) (path other h)
]
  where
    made : TrustDecision
    made = decision_of id current e p

    refused_or : Evaluated
    refused_or = decide (validate_transition_path current p.target) made

    path :
        (p.target == current) ≡ false
        → Climbs current p
        → validate_transition_path current p.target ≡ fine
    path other (inl same) = cc ((eq_iff p.target current).1 same, other)
    path other (inr (c, q, up)) = order_fine current p.target c q

Climbs-rank :
    (current : String) (p : Progress) → Climbs current p → tier_rank current ≤ tier_rank p.target
Climbs-rank current p (inl same) = omega (arith, ap tier_rank same)
Climbs-rank current p (inr (c, q, up)) = up

module _ {Moment : Type 0} (fromisoformat : String → Option Moment) (days_since : Moment → Days)
    (upper : String → String) (int_of float_of : String → Option Number)
    (to_float : Number → Option Number) (float_text : Number → String) (t : TrustPromoter)
    (claim : Dict String Value) (support_count : ℕ) where
  -- A decision for a tier that is not below the claim's
  abbrev pub IsClimb : Evaluated → Type 0
  IsClimb end =
      (d : TrustDecision) × (end ≡ decided d)
      × (tier_rank (text_of claim "trust_tier" "T0_CANDIDATE") ≤ tier_rank d.recommended_tier)

  read-IsClimb :
      (n : ℕ) (c : Option Number) (stale : StalenessResult)
      → IsClimb (evaluate_read upper float_text t claim support_count 0 n c stale)
  unfolding evaluate_read
  read-IsClimb n c stale =
      let current = text_of claim "trust_tier" "T0_CANDIDATE" in
      let e = evidence_of upper t claim support_count 0 n c in
      let p = final_progress float_text t.policy current e stale in
      let h = final-Climbs current float_text t.policy e stale refl in
      (
        decision_of (claim_id_of claim) current e p,
        conclude-Climbs (claim_id_of claim) current e p h,
        Climbs-rank current p h,
      )

  -- Without conflicts, and unless the proof count is an infinity, the confidence is too large for a
  -- float or the time lies outside the years 1 to 9999 in UTC, a claim gets a decision, and the
  -- recommended tier is not below the tier that the claim has.
  pub evaluate_claim-climbs :
      proof_count_of int_of claim ≢ overflow
      → verifier_confidence_of float_of to_float claim ≢ too_large
      → evaluate_staleness fromisoformat days_since claim t.staleness_policy ≢ none
      → (d : TrustDecision) × (evaluate_claim fromisoformat days_since upper int_of float_of
            to_float float_text t claim support_count 0
          ≡ decided d)
        × (tier_rank (text_of claim "trust_tier" "T0_CANDIDATE") ≤ tier_rank d.recommended_tier)
  evaluate_claim-climbs counts confides dates =
      evaluate_claim_split IsClimb fromisoformat days_since upper int_of float_of to_float
        float_text t claim support_count 0 read-IsClimb (λ e. absurd (counts e))
        (λ e. absurd (confides e)) (λ e. absurd (dates e))
