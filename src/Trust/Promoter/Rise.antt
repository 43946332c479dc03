-- ===== src/Trust/Promoter/Rise.antt =====
-- The stages of `TrustPromoter.evaluate_claim` (src/vcse/trust/promoter.py) and the order of the
-- tiers.
use text.Mathlib.TextEquality.{eq_iff}
use vcse.Prelude.{
  ℕ, ◌≤◌, ◌≡◌, refl, sym, ap, ◌∙◌, Bool, true, not, ◌&&◌, ◌==◌, string_eq, nat_eq, String, Option,
  none, some, List, [], ◌⊎◌, inl, inr, contains, if_both, if◌then◌else◌, ltb, leb, subst, arith,
}
use vcse.Number.{Number, le}
use vcse.Trust.Policy.{TrustPolicy}
use vcse.Trust.Staleness.{StalenessResult}
use vcse.Trust.Tiers.{tiers, tier_order, index}
use vcse.Trust.Promoter.Stages.{
  Evidence, Progress, check_provenance, check_source, check_support, check_result, check_status,
  check_verifier, reach, block, min_sources, is_bad_confidence, check_gauntlet, check_conflicts,
  check_stale, final_progress,
}

-- The place of a tier among all of them, 0 for an unknown one
unfoldable pub tier_rank : String → ℕ
unfolding index
tier_rank tier = elim (index tiers tier) [ none ↦ 0 | some n ↦ n ]

-- Still at the current tier, or further up in the order
abbrev pub Climbs : String → Progress → Type 0
Climbs current p =
    (p.target ≡ current)
    ⊎ ((contains current tier_order ≡ true)
        × (contains p.target tier_order ≡ true)
        × (tier_rank current ≤ tier_rank p.target))

-- From one tier of the order to a later one
record IsRise (low high : String) : Type 0 where
  low_in : contains low tier_order ≡ true
  high_in : contains high tier_order ≡ true
  is_up : tier_rank low ≤ tier_rank high

module _ (current : String) where
  reach-Climbs :
      (p : Progress) (low high reason : String)
      → IsRise low high
      → p.target ≡ low
      → Climbs current p
      → Climbs current (reach p high reason)
  reach-Climbs p low high reason r at (inl same) =
      let e = sym same ∙ at in
      inr (
        subst (λ c. contains c tier_order ≡ true) (sym e) r.low_in,
        r.high_in,
        subst (λ c. tier_rank c ≤ tier_rank high) (sym e) r.is_up,
      )
  reach-Climbs p low high reason r at (inr (c, t, up)) =
      inr (c, r.high_in, omega (arith, up, ap tier_rank at, r.is_up))

  reach_if :
      (b : Bool) (p : Progress) (low high reason : String) (issues : List String)
      → IsRise low high
      → p.target ≡ low
      → Climbs current p
      → Climbs current (if b then reach p high reason else block p issues)
  reach_if b p low high reason issues r at h =
      if_both (Climbs current) b (reach p high reason) (block p issues)
        (λ _. reach-Climbs p low high reason r at h) (λ _. h)

  -- A stage for the claims at one tier
  stage-Climbs :
      (low : String) (p q : Progress)
      → (p.target ≡ low → Climbs current q)
      → Climbs current p
      → Climbs current (if p.target == low then q else p)
  stage-Climbs low p q at h =
      if_both (Climbs current) (p.target == low) q p
        (λ k. at (ground (arith, k, eq_iff p.target low))) (λ _. h)

  source-Climbs :
      (f : Number → String) (policy : TrustPolicy) (e : Evidence) (p : Progress)
      → Climbs current p
      → Climbs current (check_source f policy e p)
  unfolding check_source tier_rank index contains
  source-Climbs f policy e p h =
      stage-Climbs "T1_PROVENANCED" p _
        (λ at.
          reach_if (le policy.source_trust_threshold e.source_score) p "T1_PROVENANCED"
            "T2_SOURCE_TRUSTED" _ _ (record { low_in = refl; high_in = refl; is_up = omega arith })
            at h)
        h

  support-Climbs :
      (policy : TrustPolicy) (e : Evidence) (p : Progress)
      → Climbs current p
      → Climbs current (check_support policy e p)
  unfolding check_support tier_rank index contains
  support-Climbs policy e p h =
      stage-Climbs "T2_SOURCE_TRUSTED" p _
        (λ at.
          reach_if
            (leb (min_sources policy e.source_score) e.support_count && e.conflict_count == 0) p
            "T2_SOURCE_TRUSTED" "T3_CROSS_SUPPORTED" _ _
            (record { low_in = refl; high_in = refl; is_up = omega arith }) at h)
        h

  status-Climbs :
      (policy : TrustPolicy) (e : Evidence) (s : String) (p : Progress)
      → p.target ≡ "T3_CROSS_SUPPORTED"
      → Climbs current p
      → Climbs current (check_status policy e s p)
  unfolding check_status tier_rank index contains
  status-Climbs policy e s p at h =
      if_both (Climbs current) (ltb e.proof_count 1) _ _ (λ _. h)
        (λ _.
          if_both (Climbs current) (not (s == "VERIFIED")) _ _ (λ _. h)
            (λ _.
              if_both (Climbs current) (is_bad_confidence e.verifier_confidence) _ _ (λ _. h)
                (λ _.
                  if_both (Climbs current)
                    (policy.require_verifier_consistency
                      && policy.require_positive_proof_count
                      && ltb e.proof_count policy.min_proof_count)
                    _ _ (λ _. h)
                    (λ _.
                      reach-Climbs p "T3_CROSS_SUPPORTED" "T4_VERIFIER_CONSISTENT"
                        "VERIFIER_CONSISTENCY_CONFIRMED"
                        (record { low_in = refl; high_in = refl; is_up = omega arith }) at h))))

  result-Climbs :
      (policy : TrustPolicy) (e : Evidence) (o : Option String) (p : Progress)
      → p.target ≡ "T3_CROSS_SUPPORTED"
      → Climbs current p
      → Climbs current (check_result policy e o p)
  unfolding check_result
  result-Climbs policy e none p at h = h
  result-Climbs policy e (some s) p at h = status-Climbs policy e s p at h

  verifier-Climbs :
      (policy : TrustPolicy) (e : Evidence) (p : Progress)
      → Climbs current p
      → Climbs current (check_verifier policy e p)
  unfolding check_verifier
  verifier-Climbs policy e p h =
      stage-Climbs "T3_CROSS_SUPPORTED" p _
        (λ at. result-Climbs policy e e.verification_status p at h) h

  gauntlet-Climbs :
      (policy : TrustPolicy) (p : Progress)
      → Climbs current p
      → Climbs current (check_gauntlet policy p)
  unfolding check_gauntlet tier_rank index contains
  gauntlet-Climbs policy p h =
      stage-Climbs "T4_VERIFIER_CONSISTENT" p _
        (λ at.
          if_both (Climbs current) policy.require_gauntlet_pass _ _ (λ _. h)
            (λ _.
              reach-Climbs p "T4_VERIFIER_CONSISTENT" "T5_CERTIFIED"
                "certification policy allows auto-promote"
                (record { low_in = refl; high_in = refl; is_up = omega arith }) at h))
        h

  start-Climbs :
      (e : Evidence) (p : Progress)
      → p.target ≡ current
      → Climbs current (check_provenance current e p)
  unfolding check_provenance tier_rank index contains
  start-Climbs e p same =
      if_both (Climbs current) (current == "T0_CANDIDATE") _ p
        (λ k.
          reach_if e.has_provenance p "T0_CANDIDATE" "T1_PROVENANCED" _ _
            (record { low_in = refl; high_in = refl; is_up = omega arith })
            (same ∙ ground (arith, k, eq_iff current "T0_CANDIDATE")) (inl same))
        (λ _. inl same)

  pub final-Climbs :
      (f : Number → String) (policy : TrustPolicy) (e : Evidence) (s : StalenessResult)
      → e.conflict_count ≡ 0
      → Climbs current (final_progress f policy current e s)
  unfolding final_progress check_conflicts check_stale
  final-Climbs f policy e s quiet =
      let start : Progress = record { target = current; reasons = []; blockers = [] } in
      let p1 = check_provenance current e start in
      let p2 = check_source f policy e p1 in
      let p3 = check_support policy e p2 in
      let p4 = check_verifier policy e p3 in
      let p5 = check_gauntlet policy p4 in
      let h3 =
        support-Climbs policy e p2 (source-Climbs f policy e p1 (start-Climbs e start refl)) in
      let h5 = gauntlet-Climbs policy p4 (verifier-Climbs policy e p3 h3) in
      if_both (Climbs current) s.stale _ (check_conflicts e p5) (λ _. unmoved p5 h5)
        (λ _. unmoved p5 h5)
    where
      unmoved : (p : Progress) → Climbs current p → Climbs current (check_conflicts e p)
      unmoved p h =
          if_both (Climbs current) (ltb 0 e.conflict_count) _ p
            (λ k. absurd (ground (arith, k, quiet))) (λ _. h)
