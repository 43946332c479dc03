-- ===== src/Trust/Promoter/Backed.antt =====
-- Which claims `TrustPromoter.evaluate_claim` (src/vcse/trust/promoter.py) takes to the tiers T4 and
-- T5.
use vcse.Prelude.{
  ℕ, ◌≤◌, ◌≡◌, true, false, ◌==◌, string_eq, nat_eq, String, Option, some, not, if_both, subst,
}
use vcse.Number.{Number}
use vcse.Value.{Value}
use vcse.Dict.{Dict}
use vcse.Trust.Staleness.{Days, StalenessResult, text_of}
use vcse.Trust.Tiers.{Checked, fine, trust_error, list_error, validate_transition_path}
use vcse.Trust.Promoter.{
  TrustPromoter, TrustDecision, Evaluated, decided, overflowed, decision_of, conclude, evidence_of,
  evaluate_read, evaluate_claim, decide,
}
use vcse.Trust.Promoter.Reading.{claim_id_of}
use vcse.Trust.Promoter.Split.{evaluate_claim_split}
use vcse.Trust.Promoter.Clear.{is_verified_tier, IsClear, final-IsClear}
use vcse.Trust.Promoter.Stages.{Evidence, Progress, final_progress}

decide-decided : (c : Checked) (made d : TrustDecision) → decide c made ≡ decided d → made ≡ d
decide-decided fine made d h = cc
decide-decided (trust_error t r) made d h = cc
decide-decided list_error made d h = cc

conclude-decided :
    (id current : String) (e : Evidence) (p : Progress) (d : TrustDecision)
    → conclude id current e p ≡ decided d
    → decision_of id current e p ≡ d
unfolding conclude
conclude-decided id current e p d =
    let made = decision_of id current e p in
    if_both (λ q. q ≡ decided d → made ≡ d) (not (p.target == current)) _ _
      (λ _. decide-decided (validate_transition_path current p.target) made d) (λ _ h. cc)

abbrev IsWarranted : ℕ → TrustDecision → Type 0
IsWarranted conflict_count d =
    is_verified_tier d.recommended_tier ≡ true
    → (d.verification_status ≡ some "VERIFIED") × (1 ≤ d.proof_count) × (conflict_count ≡ 0)

module _ {Moment : Type 0} (fromisoformat : String → Option Moment) (days_since : Moment → Days)
    (upper : String → String) (int_of float_of : String → Option Number)
    (to_float : Number → Option Number) (float_text : Number → String) (t : TrustPromoter)
    (claim : Dict String Value) (support_count conflict_count : ℕ) where
  -- What is decided is warranted.
  abbrev IsCareful : Evaluated → Type 0
  IsCareful end = (d : TrustDecision) → end ≡ decided d → IsWarranted conflict_count d

  read-IsCareful :
      is_verified_tier (text_of claim "trust_tier" "T0_CANDIDATE") ≡ false
      → (n : ℕ) (c : Option Number) (stale : StalenessResult)
      → IsCareful (evaluate_read upper float_text t claim support_count conflict_count n c stale)
  unfolding evaluate_read
  read-IsCareful low n c stale d h =
      let current = text_of claim "trust_tier" "T0_CANDIDATE" in
      let e = evidence_of upper t claim support_count conflict_count n c in
      let p = final_progress float_text t.policy current e stale in
      subst (IsWarranted conflict_count) (conclude-decided (claim_id_of claim) current e p d h)
        (warranted current e p (final-IsClear e float_text t.policy current stale low))
    where
      warranted :
          (current : String) (e : Evidence) (p : Progress)
          → IsClear e p
          → IsWarranted e.conflict_count (decision_of (claim_id_of claim) current e p)
      warranted current e p h k = h k

  -- A claim that does not stand at T4_VERIFIER_CONSISTENT or T5_CERTIFIED already is recommended for
  -- one of the two only with the verification status VERIFIED, at least one proof and no conflict.
  pub evaluate_claim-IsWarranted :
      (d : TrustDecision)
      → is_verified_tier (text_of claim "trust_tier" "T0_CANDIDATE") ≡ false
      → evaluate_claim fromisoformat days_since upper int_of float_of to_float float_text t claim
          support_count conflict_count
        ≡ decided d
      → is_verified_tier d.recommended_tier ≡ true
      → (d.verification_status ≡ some "VERIFIED") × (1 ≤ d.proof_count) × (conflict_count ≡ 0)
  evaluate_claim-IsWarranted d low h =
      evaluate_claim_split IsCareful fromisoformat days_since upper int_of float_of to_float
        float_text t claim support_count conflict_count (read-IsCareful low) (λ _. never)
        (λ _. never) (λ _. never) d h
    where
      never : IsCareful overflowed
      never c k = cc
