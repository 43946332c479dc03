-- ===== src/Trust/Promoter.antt =====
-- `TrustPromoter.evaluate_claim` of src/vcse/trust/promoter.py. `int(text)`,
-- `float(x)`, `str.upper`, the printing of floats and the clock are parameters.
pub mod Stages
pub mod Reading
pub mod Split
pub mod Clear
pub mod Backed
pub mod Rise
pub mod Climb
pub mod Conflicted
use vcse.Prelude.{
  ℕ, Bool, true, false, not, ◌&&◌, ◌||◌, ◌==◌, string_eq, String, Option, none, some, List, [], ◌∷◌,
  is_empty, if◌then◌else◌,
}
use vcse.Number.{Number}
use vcse.Value.{Value}
use vcse.Dict.{Dict, get}
use vcse.Ledger.{Content}
use vcse.Trust.Policy.{TrustPolicy, StalenessPolicy}
use vcse.Trust.Scorer.{SourceAuthority, score}
use vcse.Trust.Staleness.{Days, StalenessResult, evaluate_staleness, text_of}
use vcse.Trust.Tiers.{Checked, fine, trust_error, list_error, validate_transition_path}
use vcse.Trust.Promoter.Stages.{Progress, Evidence, final_progress}
use vcse.Trust.Promoter.Reading.{
  Count, counted, overflow, Confidence, missing, read, too_large, proof_count_of,
  verification_status_of, verifier_confidence_of, has_provenance, source_of, claim_id_of,
}

-- The payload of the event TRUST_PROMOTED
pub record Promoted : Type 0 where
  pub current_tier : String
  pub recommended_tier : String
  pub reasons : List String
  pub blocking_issues : List String

-- `TrustDecision`. Of its event only the content stands here: the id, the time and the hash are the
-- ledger's.
pub record TrustDecision : Type 0 where
  pub claim_id : String
  pub current_tier : String
  pub recommended_tier : String
  pub passed : Bool
  pub reasons : List String
  pub blocking_issues : List String
  pub ledger_event : Content Promoted
  pub verification_status : Option String
  pub proof_count : ℕ

pub data Evaluated : Type 0 where
  decided : TrustDecision → Evaluated
  -- a TrustError, with its type and its reason
  refused : (error_type reason : String) → Evaluated
  -- a ValueError of `list.index`, and an OverflowError of `int(x)`, `float(x)` or `astimezone`
  unlisted overflowed : Evaluated

-- `TrustPromoter`: its policies and its registry
pub record TrustPromoter : Type 0 where
  pub policy : TrustPolicy
  pub source_registry : Dict String SourceAuthority
  pub staleness_policy : StalenessPolicy

-- The decision that is returned
unfoldable pub decision_of : (claim_id current_tier : String) → Evidence → Progress → TrustDecision
decision_of claim_id current_tier e p = record {
  claim_id = claim_id;
  current_tier = current_tier;
  recommended_tier = p.target;
  passed =
      is_empty p.blockers && (p.target == "T4_VERIFIER_CONSISTENT" || p.target == "T5_CERTIFIED");
  reasons = p.reasons;
  blocking_issues = p.blockers;
  ledger_event = record {
    event_type = "TRUST_PROMOTED";
    claim_id = some claim_id;
    pack_id = none;
    payload = record {
      current_tier = current_tier;
      recommended_tier = p.target;
      reasons = p.reasons;
      blocking_issues = p.blockers;
    };
  };
  verification_status = e.verification_status;
  proof_count = e.proof_count;
}

abbrev pub decide : Checked → TrustDecision → Evaluated
decide fine d = decided d
decide (trust_error t r) d = refused t r
decide list_error d = unlisted

-- The end of `evaluate_claim`, from `if target != current_tier` on
unfoldable pub conclude : (claim_id current_tier : String) → Evidence → Progress → Evaluated
unfolding decision_of validate_transition_path
conclude claim_id current_tier e p =
    if not (p.target == current_tier)
    then decide (validate_transition_path current_tier p.target)
        (decision_of claim_id current_tier e p)
    else decided (decision_of claim_id current_tier e p)

module _ (upper : String → String) where
  unfoldable pub evidence_of :
      TrustPromoter
      → Dict String Value
      → (support_count conflict_count proof_count : ℕ) → (verifier_confidence : Option Number)
      → Evidence
  unfolding score has_provenance source_of verification_status_of
  evidence_of t claim support_count conflict_count proof_count verifier_confidence = record {
    has_provenance = has_provenance claim;
    source_score = score t.source_registry (source_of claim);
    support_count = support_count;
    conflict_count = conflict_count;
    verification_status = verification_status_of upper (get claim "verification_status");
    proof_count = proof_count;
    verifier_confidence = verifier_confidence;
  }

module _ (upper : String → String) (float_text : Number → String) where
  -- `evaluate_claim` on what it has read: the proof count, the confidence and the staleness
  unfoldable pub evaluate_read :
      TrustPromoter
      → Dict String Value
      → (support_count conflict_count proof_count : ℕ) → (verifier_confidence : Option Number)
      → StalenessResult
      → Evaluated
  unfolding conclude final_progress evidence_of claim_id_of text_of
  evaluate_read t claim support_count conflict_count proof_count verifier_confidence stale =
      let current_tier = text_of claim "trust_tier" "T0_CANDIDATE" in
      let e =
        evidence_of upper t claim support_count conflict_count proof_count verifier_confidence in
      conclude (claim_id_of claim) current_tier e
        (final_progress float_text t.policy current_tier e stale)

-- What is done with what is read, and the OverflowErrors
unfoldable pub with_staleness : (StalenessResult → Evaluated) → Option StalenessResult → Evaluated
with_staleness next none = overflowed
with_staleness next (some stale) = next stale

unfoldable pub with_confidence : (Option Number → Evaluated) → Confidence → Evaluated
with_confidence next missing = next none
with_confidence next (read n) = next (some n)
with_confidence next too_large = overflowed

unfoldable pub with_count : (ℕ → Evaluated) → Count → Evaluated
with_count next (counted n) = next n
with_count next overflow = overflowed

module _ {Moment : Type 0} (fromisoformat : String → Option Moment) (days_since : Moment → Days)
    (upper : String → String) (int_of float_of : String → Option Number)
    (to_float : Number → Option Number) (float_text : Number → String) where
  unfoldable pub evaluate_claim :
      TrustPromoter → Dict String Value → (support_count conflict_count : ℕ) → Evaluated
  unfolding evaluate_read with_staleness with_confidence with_count proof_count_of
      verifier_confidence_of evaluate_staleness
  evaluate_claim t claim support_count conflict_count =
      with_count
        (λ n.
          with_confidence
            (λ c.
              with_staleness
                (evaluate_read upper float_text t claim support_count conflict_count n c)
                (evaluate_staleness fromisoformat days_since claim t.staleness_policy))
            (verifier_confidence_of float_of to_float claim))
        (proof_count_of int_of claim)
