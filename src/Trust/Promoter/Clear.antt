-- ===== src/Trust/Promoter/Clear.antt =====
-- What the stages of `TrustPromoter.evaluate_claim` (src/vcse/trust/promoter.py) ask for before the
-- tiers T4 and T5.
use vcse.Prelude.{
  ◌≤◌, ◌≡◌, refl, ap, ◌∙◌, Bool, true, false, ◌||◌, ◌==◌, string_eq, nat_eq, String, Option, none,
  some, arith, List, [], not, if_both, ltb, leb, ◌&&◌, if◌then◌else◌,
}
use text.Mathlib.TextEquality.{eq_iff}
use vcse.Number.{Number, le}
use vcse.Trust.Policy.{TrustPolicy}
use vcse.Trust.Staleness.{StalenessResult}
use vcse.Trust.Promoter.Stages.{
  Evidence, Progress, check_provenance, check_source, check_support, check_result, check_status,
  check_verifier, reach, block, min_sources, is_bad_confidence, check_gauntlet, check_conflicts,
  check_stale, final_progress,
}

-- T4_VERIFIER_CONSISTENT or T5_CERTIFIED
unfoldable pub is_verified_tier : String → Bool
is_verified_tier tier = tier == "T4_VERIFIER_CONSISTENT" || tier == "T5_CERTIFIED"

abbrev IsBacked : Evidence → Progress → Type 0
IsBacked e p =
    is_verified_tier p.target ≡ true
    → (e.verification_status ≡ some "VERIFIED") × (1 ≤ e.proof_count)

module _ (e : Evidence) where
  -- A stage that raises the target to a tier below T4, or blocks
  below_if :
      (b : Bool) (p : Progress) (tier reason : String) (issues : List String)
      → is_verified_tier tier ≡ false
      → IsBacked e p
      → IsBacked e (if b then reach p tier reason else block p issues)
  below_if b p tier reason issues low h =
      if_both (IsBacked e) b (reach p tier reason) (block p issues) (λ _ k. cc (k, low)) (λ _. h)

  provenance-IsBacked :
      (current : String) (p : Progress) → IsBacked e p → IsBacked e (check_provenance current e p)
  unfolding check_provenance is_verified_tier
  provenance-IsBacked current p h =
      if_both (IsBacked e) (current == "T0_CANDIDATE") _ p
        (λ _. below_if e.has_provenance p "T1_PROVENANCED" _ _ refl h) (λ _. h)

  source-IsBacked :
      (f : Number → String) (policy : TrustPolicy) (p : Progress)
      → IsBacked e p
      → IsBacked e (check_source f policy e p)
  unfolding check_source is_verified_tier
  source-IsBacked f policy p h =
      if_both (IsBacked e) (p.target == "T1_PROVENANCED") _ p
        (λ _.
          below_if (le policy.source_trust_threshold e.source_score) p "T2_SOURCE_TRUSTED" _ _ refl
            h)
        (λ _. h)

  support-IsBacked :
      (policy : TrustPolicy) (p : Progress) → IsBacked e p → IsBacked e (check_support policy e p)
  unfolding check_support is_verified_tier
  support-IsBacked policy p h =
      if_both (IsBacked e) (p.target == "T2_SOURCE_TRUSTED") _ p
        (λ _.
          below_if
            (leb (min_sources policy e.source_score) e.support_count && e.conflict_count == 0) p
            "T3_CROSS_SUPPORTED" _ _ refl h)
        (λ _. h)

  status-IsBacked :
      (policy : TrustPolicy) (s : String) (p : Progress)
      → e.verification_status ≡ some s
      → IsBacked e p
      → IsBacked e (check_status policy e s p)
  unfolding check_status
  status-IsBacked policy s p at h =
      if_both (IsBacked e) (ltb e.proof_count 1) _ _ (λ _. h)
        (λ positive.
          if_both (IsBacked e) (not (s == "VERIFIED")) _ _ (λ _. h)
            (λ verified.
              if_both (IsBacked e) (is_bad_confidence e.verifier_confidence) _ _ (λ _. h)
                (λ _.
                  if_both (IsBacked e)
                    (policy.require_verifier_consistency
                      && policy.require_positive_proof_count
                      && ltb e.proof_count policy.min_proof_count)
                    _ _ (λ _. h)
                    (λ _ _. (
                      at ∙ ap some (ground (arith, verified, eq_iff s "VERIFIED")),
                      ground (arith, positive),
                    )))))

  result-IsBacked :
      (policy : TrustPolicy) (o : Option String) (p : Progress)
      → e.verification_status ≡ o
      → IsBacked e p
      → IsBacked e (check_result policy e o p)
  unfolding check_result
  result-IsBacked policy none p at h = h
  result-IsBacked policy (some s) p at h = status-IsBacked policy s p at h

  verifier-IsBacked :
      (policy : TrustPolicy) (p : Progress) → IsBacked e p → IsBacked e (check_verifier policy e p)
  unfolding check_verifier
  verifier-IsBacked policy p h =
      if_both (IsBacked e) (p.target == "T3_CROSS_SUPPORTED") _ p
        (λ _. result-IsBacked policy e.verification_status p refl h) (λ _. h)

  -- T5 is reached only from T4, which is backed already.
  gauntlet-IsBacked :
      (policy : TrustPolicy) (p : Progress) → IsBacked e p → IsBacked e (check_gauntlet policy p)
  unfolding check_gauntlet is_verified_tier
  gauntlet-IsBacked policy p h =
      if_both (IsBacked e) (p.target == "T4_VERIFIER_CONSISTENT") _ p
        (λ at.
          if_both (IsBacked e) policy.require_gauntlet_pass _ _ (λ _. h)
            (λ _ _. h (ground (arith, at))))
        (λ _. h)

  -- Conflicts close the claim, whatever it reached.
  abbrev pub IsClear : Progress → Type 0
  IsClear p =
      is_verified_tier p.target ≡ true
      → (e.verification_status ≡ some "VERIFIED") × (1 ≤ e.proof_count) × (e.conflict_count ≡ 0)

  conflicts-IsClear : (p : Progress) → IsBacked e p → IsClear (check_conflicts e p)
  unfolding check_conflicts is_verified_tier
  conflicts-IsClear p h =
      if_both IsClear (ltb 0 e.conflict_count) _ p (λ _ k. cc k)
        (λ quiet k. let (v, n) = h k in (v, n, ground (arith, quiet)))

  stale-IsClear : (s : StalenessResult) (p : Progress) → IsClear p → IsClear (check_stale s p)
  unfolding check_stale
  stale-IsClear s p h = if_both IsClear s.stale _ p (λ _. h) (λ _. h)

  pub final-IsClear :
      (f : Number → String) (policy : TrustPolicy) (current : String) (s : StalenessResult)
      → is_verified_tier current ≡ false
      → IsClear (final_progress f policy current e s)
  unfolding final_progress
  final-IsClear f policy current s low =
      let start : Progress = record { target = current; reasons = []; blockers = [] } in
      let p1 = check_provenance current e start in
      let p2 = check_source f policy e p1 in
      let p3 = check_support policy e p2 in
      let p4 = check_verifier policy e p3 in
      let p5 = check_gauntlet policy p4 in
      let h1 = provenance-IsBacked current start (λ k. cc (k, low)) in
      let h3 = support-IsBacked policy p2 (source-IsBacked f policy p1 h1) in
      let h5 = gauntlet-IsBacked policy p4 (verifier-IsBacked policy p3 h3) in
      stale-IsClear s (check_conflicts e p5) (conflicts-IsClear p5 h5)
