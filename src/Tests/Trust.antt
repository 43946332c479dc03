-- ===== src/Tests/Trust.antt =====
-- src/vcse/trust on one claim. The texts that the runs read are given by small functions.
use vcse.Prelude.{
  ℕ, ◌≤◌, ◌≡◌, ◌≢◌, refl, String, Option, none, some, List, [], ◌∷◌, true, false, contains,
  string_eq,
}
use vcse.Number.{Number, finite}
use vcse.Value.{Value, text, num}
use vcse.Dict.{Dict}
use vcse.Trust.Policy.{TrustPolicy, StalenessPolicy, default_policy}
use vcse.Trust.Scorer.{make_registry}
use vcse.Trust.Staleness.{Days, past, text_of, evaluate_staleness}
use vcse.Trust.Promoter.{TrustPromoter, TrustDecision, decided, overflowed, evaluate_claim}
use vcse.Trust.Promoter.Reading.{
  counted, overflow, missing, too_large, proof_count_of, verifier_confidence_of,
}
use vcse.Trust.Promoter.Clear.{is_verified_tier}
use vcse.Trust.Promoter.Backed.{evaluate_claim-IsWarranted}
use vcse.Trust.Promoter.Conflicted.{IsConflictEnd, evaluate_claim-IsConflictEnd}
use vcse.Trust.Promoter.Rise.{tier_rank}
use vcse.Trust.Promoter.Climb.{evaluate_claim-climbs}

abbrev pub upper : String → String
upper s = s

abbrev pub no_number : String → Option Number
no_number s = none

abbrev pub to_float : Number → Option Number
to_float n = some n

abbrev pub float_text : Number → String
float_text n = "0.8"

abbrev pub days : ℕ → Days
days n = past n

-- Each timestamp is of 3 days ago.
abbrev pub moment : String → Option ℕ
moment s = some 3

unfoldable pub promoter : TrustPromoter
promoter = record {
  policy = default_policy;
  source_registry = make_registry [];
  staleness_policy = record { domain = "general"; freshness_days = 365; relation_overrides = none };
}

-- Proved twice, from a source of two that is trusted
abbrev pub claim : Dict String Value
claim =
    ("claim_id", text "claim:1")
    ∷ ("relation", text "capital_of")
    ∷ ("source_id", text "wikidata")
    ∷ ("created_at", text "2026-01-01T00:00:00Z")
    ∷ ("verification_status", text "VERIFIED")
    ∷ ("proof_count", num (finite 2 0 0) "2")
    ∷ []

abbrev pub reasons_found : List String
reasons_found =
    "provenance present" ∷ "source trust >= threshold (0.8)" ∷ "cross-source support satisfied"
    ∷ "VERIFIER_CONSISTENCY_CONFIRMED" ∷ []

abbrev pub claim_decision : TrustDecision
claim_decision = record {
  claim_id = "claim:1";
  current_tier = "T0_CANDIDATE";
  recommended_tier = "T4_VERIFIER_CONSISTENT";
  passed = false;
  reasons = reasons_found;
  blocking_issues = "gauntlet confirmation required for certification" ∷ [];
  ledger_event = record {
    event_type = "TRUST_PROMOTED";
    claim_id = some "claim:1";
    pack_id = none;
    payload = record {
      current_tier = "T0_CANDIDATE";
      recommended_tier = "T4_VERIFIER_CONSISTENT";
      reasons = reasons_found;
      blocking_issues = "gauntlet confirmation required for certification" ∷ [];
    };
  };
  verification_status = some "VERIFIED";
  proof_count = 2;
}

pub claim_decided :
    evaluate_claim moment days upper no_number no_number to_float float_text promoter claim 2 0
    ≡ decided claim_decision
unfolding evaluate_claim vcse.Dict.get vcse.Value.str vcse.Trust.Policy.freshness_for promoter
    vcse.Number.le default_policy make_registry vcse.Text.Norm.strip vcse.Text.Norm.is_space
    contains
claim_decided = refl

abbrev no_conflicts : ℕ
no_conflicts = 0

starts_low : is_verified_tier (text_of claim "trust_tier" "T0_CANDIDATE") ≡ false
unfolding is_verified_tier text_of vcse.Dict.get
starts_low = refl

reaches_high : is_verified_tier claim_decision.recommended_tier ≡ true
unfolding is_verified_tier
reaches_high = refl

evaluate_claim-IsWarranted_example :
    (claim_decision.verification_status ≡ some "VERIFIED")
    × (1 ≤ claim_decision.proof_count)
    × (no_conflicts ≡ 0)
evaluate_claim-IsWarranted_example =
    evaluate_claim-IsWarranted moment days upper no_number no_number to_float float_text promoter
      claim 2 0 claim_decision starts_low claim_decided reaches_high

two_proofs : proof_count_of no_number claim ≡ counted 2
unfolding proof_count_of vcse.Dict.get
two_proofs = refl

counts : proof_count_of no_number claim ≢ overflow
counts e = cc (two_proofs, e)

no_confidence : verifier_confidence_of no_number to_float claim ≡ missing
unfolding verifier_confidence_of vcse.Dict.get
no_confidence = refl

confides : verifier_confidence_of no_number to_float claim ≢ too_large
confides e = cc (no_confidence, e)

three_days :
    evaluate_staleness moment days claim promoter.staleness_policy
    ≡ some (record { stale = false; reason = "fresh"; age_days = 3; freshness_days = 365 })
unfolding evaluate_staleness vcse.Dict.get vcse.Value.str vcse.Trust.Policy.freshness_for promoter
three_days = refl

dates : evaluate_staleness moment days claim promoter.staleness_policy ≢ none
dates e = cc (three_days, e)

evaluate_claim-climbs_example :
    (d : TrustDecision) × (evaluate_claim moment days upper no_number no_number to_float float_text
        promoter claim 2 0
      ≡ decided d)
    × (tier_rank (text_of claim "trust_tier" "T0_CANDIDATE") ≤ tier_rank d.recommended_tier)
evaluate_claim-climbs_example =
    evaluate_claim-climbs moment days upper no_number no_number to_float float_text promoter claim 2
      counts confides dates

evaluate_claim-IsConflictEnd_example :
    IsConflictEnd
      (text_of claim "trust_tier" "T0_CANDIDATE")
      (evaluate_claim moment days upper no_number no_number to_float float_text promoter claim 2 1)
evaluate_claim-IsConflictEnd_example =
    evaluate_claim-IsConflictEnd moment days upper no_number no_number to_float float_text promoter
      claim 2 0 counts confides dates

-- Every number is too large: the confidence of a claim is an OverflowError.
abbrev no_float : Number → Option Number
no_float n = none

confidence_overflows :
    evaluate_claim moment days upper no_number no_number no_float float_text promoter
      (("confidence", num (finite 2 0 0) "2") ∷ claim)
      2
      0
    ≡ overflowed
unfolding evaluate_claim vcse.Dict.get
confidence_overflows = refl

-- A policy without the gauntlet
unfoldable auto_promoter : TrustPromoter
auto_promoter = record {
  policy = record {
    policy_id = "auto";
    min_trust_tier = 1;
    require_provenance = true;
    allow_conflicts = false;
    allow_missing_sources = false;
    allowed_pack_statuses = "candidate" ∷ [];
    allowed_relations = none;
    blocked_relations = none;
    source_trust_threshold = finite 1 0 1;
    min_independent_sources = 2;
    require_verifier_consistency = true;
    require_positive_proof_count = true;
    min_proof_count = 1;
    require_gauntlet_pass = false;
    allow_single_authoritative_source = false;
    high_risk_domain = false;
  };
  source_registry = make_registry [];
  staleness_policy = record { domain = "general"; freshness_days = 365; relation_overrides = none };
}

-- The stored claim says of itself that it stands at T4_VERIFIER_CONSISTENT; nothing else is known.
abbrev bare_claim : Dict String Value
bare_claim = ("claim_id", text "claim:2") ∷ ("trust_tier", text "T4_VERIFIER_CONSISTENT") ∷ []

abbrev bare_decision : TrustDecision
bare_decision = record {
  claim_id = "claim:2";
  current_tier = "T4_VERIFIER_CONSISTENT";
  recommended_tier = "T5_CERTIFIED";
  passed = true;
  reasons = "certification policy allows auto-promote" ∷ [];
  blocking_issues = [];
  ledger_event = record {
    event_type = "TRUST_PROMOTED";
    claim_id = some "claim:2";
    pack_id = none;
    payload = record {
      current_tier = "T4_VERIFIER_CONSISTENT";
      recommended_tier = "T5_CERTIFIED";
      reasons = "certification policy allows auto-promote" ∷ [];
      blocking_issues = [];
    };
  };
  verification_status = none;
  proof_count = 0;
}

-- It is certified, without a verification status and without a proof.
stored_tier_certified :
    evaluate_claim moment days upper no_number no_number to_float float_text auto_promoter
      bare_claim 1 0
    ≡ decided bare_decision
unfolding evaluate_claim vcse.Dict.get vcse.Value.str auto_promoter contains
stored_tier_certified = refl
