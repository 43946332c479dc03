-- ===== src/Trust/Promoter/Stages.antt =====
-- The stages of `TrustPromoter.evaluate_claim` (src/vcse/trust/promoter.py): each may raise the
-- target tier, with a reason, or block, with an issue.
use vcse.Prelude.{
  ℕ, Bool, false, not, ◌&&◌, ◌==◌, string_eq, nat_eq, String, Option, none, some, List, [], ◌∷◌,
  ◌++◌, ltb, leb, if◌then◌else◌,
}
use vcse.Number.{Number, finite, le}
use vcse.Number.Order.{is_finite}
use vcse.Memory.Keys.{concat}
use vcse.Text.Decimal.{show}
use vcse.Trust.Policy.{TrustPolicy}
use vcse.Trust.Staleness.{StalenessResult}

-- What is read from the claim and its cluster
pub record Evidence : Type 0 where
  pub has_provenance : Bool
  pub source_score : Number
  pub support_count : ℕ
  pub conflict_count : ℕ
  pub verification_status : Option String
  pub proof_count : ℕ
  pub verifier_confidence : Option Number

-- The variables `target`, `reasons` and `blockers`
pub record Progress : Type 0 where
  pub target : String
  pub reasons : List String
  pub blockers : List String

abbrev pub reach : Progress → (tier reason : String) → Progress
reach p tier reason = record {
  target = tier;
  reasons = p.reasons ++ reason ∷ [];
  blockers = p.blockers;
}

abbrev pub block : Progress → List String → Progress
block p issues = record { target = p.target; reasons = p.reasons; blockers = p.blockers ++ issues }

unfoldable pub check_provenance : (current_tier : String) → Evidence → Progress → Progress
check_provenance current_tier e p =
    if current_tier == "T0_CANDIDATE"
    then if e.has_provenance
      then reach p "T1_PROVENANCED" "provenance present"
      else block p ("missing provenance" ∷ [])
    else p

unfoldable pub check_source :
    (float_text : Number → String) → TrustPolicy → Evidence → Progress → Progress
check_source float_text policy e p =
    if p.target == "T1_PROVENANCED"
    then if le policy.source_trust_threshold e.source_score
      then reach p "T2_SOURCE_TRUSTED"
          (concat ("source trust >= threshold (" ∷ float_text e.source_score ∷ ")" ∷ []))
      else block p ("source trust below threshold" ∷ [])
    else p

-- `min_sources`; the float 0.9 is the fraction below.
unfoldable pub min_sources : TrustPolicy → Number → ℕ
min_sources policy source_score =
    if policy.allow_single_authoritative_source && le (finite 8106479329266893 0 53) source_score
    then 1
    else policy.min_independent_sources

unfoldable pub check_support : TrustPolicy → Evidence → Progress → Progress
unfolding min_sources
check_support policy e p =
    if p.target == "T2_SOURCE_TRUSTED"
    then if leb (min_sources policy e.source_score) e.support_count && e.conflict_count == 0
      then reach p "T3_CROSS_SUPPORTED" "cross-source support satisfied"
      else block p ("insufficient independent source support or conflicts present" ∷ [])
    else p

-- `confidence_present and not _is_finite_number(verifier_confidence)`
unfoldable pub is_bad_confidence : Option Number → Bool
is_bad_confidence none = false
is_bad_confidence (some n) = not (is_finite n)

-- The branches on a verification status that is there
unfoldable pub check_status : TrustPolicy → Evidence → (status : String) → Progress → Progress
unfolding is_bad_confidence
check_status policy e status p =
    if ltb e.proof_count 1
    then block p ("ZERO_PROOF_BLOCKED" ∷ "INSUFFICIENT_VERIFIER_PROOF_COUNT" ∷ [])
    else if not (status == "VERIFIED")
    then block p ("NON_VERIFIED_STATUS_BLOCKED" ∷ "VERIFICATION_STATUS_NOT_VERIFIED" ∷ [])
    else if is_bad_confidence e.verifier_confidence
    then block p ("NON_FINITE_VERIFIER_CONFIDENCE" ∷ [])
    else if policy.require_verifier_consistency
        && policy.require_positive_proof_count
        && ltb e.proof_count policy.min_proof_count
    then block p ("INSUFFICIENT_VERIFIER_PROOF_COUNT" ∷ [])
    else reach p "T4_VERIFIER_CONSISTENT" "VERIFIER_CONSISTENCY_CONFIRMED"

unfoldable pub check_result : TrustPolicy → Evidence → Option String → Progress → Progress
unfolding check_status
check_result policy e none p = block p ("VERIFIER_RESULT_REQUIRED" ∷ [])
check_result policy e (some status) p = check_status policy e status p

unfoldable pub check_verifier : TrustPolicy → Evidence → Progress → Progress
unfolding check_result
check_verifier policy e p =
    if p.target == "T3_CROSS_SUPPORTED" then check_result policy e e.verification_status p else p

unfoldable pub check_gauntlet : TrustPolicy → Progress → Progress
check_gauntlet policy p =
    if p.target == "T4_VERIFIER_CONSISTENT"
    then if policy.require_gauntlet_pass
      then block p ("gauntlet confirmation required for certification" ∷ [])
      else reach p "T5_CERTIFIED" "certification policy allows auto-promote"
    else p

unfoldable pub check_conflicts : Evidence → Progress → Progress
check_conflicts e p =
    if ltb 0 e.conflict_count then reach p "T7_CONFLICTED" "conflicts detected" else p

unfoldable pub check_stale : StalenessResult → Progress → Progress
check_stale s p =
    if s.stale
    then block p (
        concat (
          "stale claim (age=" ∷ show s.age_days ∷ ", freshness=" ∷ show s.freshness_days ∷ ")" ∷ [])
        ∷ [])
    else p

-- The stages one after the other
unfoldable pub final_progress :
    (float_text : Number → String)
    → TrustPolicy
    → (current_tier : String) → Evidence
    → StalenessResult
    → Progress
unfolding check_provenance check_source check_support check_verifier check_gauntlet check_conflicts
    check_stale
final_progress float_text policy current_tier e stale =
    let start : Progress = record { target = current_tier; reasons = []; blockers = [] } in
    let p1 = check_provenance current_tier e start in
    let p2 = check_source float_text policy e p1 in
    let p3 = check_support policy e p2 in
    let p4 = check_verifier policy e p3 in
    let p5 = check_gauntlet policy p4 in check_stale stale (check_conflicts e p5)
