-- ===== src/Trust/Policy.antt =====
-- The policies of src/vcse/trust/policy.py, without `load_policy`. A negative minimum acts as 0.
use vcse.Prelude.{
  ℕ, Bool, true, false, ◌&&◌, String, string_eq, Option, none, some, List, [], ◌∷◌, ltb,
  if◌then◌else◌,
}
use vcse.Number.{Number, finite}
use vcse.Dict.{Dict, get}

pub record TrustPolicy : Type 0 where
  pub policy_id : String
  pub min_trust_tier : ℕ
  pub require_provenance : Bool
  pub allow_conflicts : Bool
  pub allow_missing_sources : Bool
  pub allowed_pack_statuses : List String
  pub allowed_relations : Option (List String)
  pub blocked_relations : Option (List String)
  pub source_trust_threshold : Number
  pub min_independent_sources : ℕ
  pub require_verifier_consistency : Bool
  pub require_positive_proof_count : Bool
  pub min_proof_count : ℕ
  pub require_gauntlet_pass : Bool
  pub allow_single_authoritative_source : Bool
  pub high_risk_domain : Bool

-- `__post_init__`
unfoldable pub make_policy : TrustPolicy → TrustPolicy
make_policy p = record {
  policy_id = p.policy_id;
  min_trust_tier = p.min_trust_tier;
  require_provenance = p.require_provenance;
  allow_conflicts = p.allow_conflicts;
  allow_missing_sources = p.allow_missing_sources;
  allowed_pack_statuses = p.allowed_pack_statuses;
  allowed_relations = p.allowed_relations;
  blocked_relations = p.blocked_relations;
  source_trust_threshold = p.source_trust_threshold;
  min_independent_sources = p.min_independent_sources;
  require_verifier_consistency = p.require_verifier_consistency;
  require_positive_proof_count = p.require_positive_proof_count;
  min_proof_count =
      if p.require_positive_proof_count && ltb p.min_proof_count 1 then 1 else p.min_proof_count;
  require_gauntlet_pass = p.require_gauntlet_pass;
  allow_single_authoritative_source = p.allow_single_authoritative_source;
  high_risk_domain = p.high_risk_domain;
}

-- `TrustPolicy()`; the float 0.7 is the fraction below.
unfoldable pub default_policy : TrustPolicy
unfolding make_policy
default_policy = make_policy (record {
  policy_id = "default_certification";
  min_trust_tier = 1;
  require_provenance = true;
  allow_conflicts = false;
  allow_missing_sources = false;
  allowed_pack_statuses = "candidate" ∷ "reviewed" ∷ [];
  allowed_relations = none;
  blocked_relations = none;
  source_trust_threshold = finite 3152519739159347 0 52;
  min_independent_sources = 2;
  require_verifier_consistency = true;
  require_positive_proof_count = true;
  min_proof_count = 1;
  require_gauntlet_pass = true;
  allow_single_authoritative_source = false;
  high_risk_domain = false;
})

pub record StalenessPolicy : Type 0 where
  pub domain : String
  pub freshness_days : ℕ
  pub relation_overrides : Option (Dict String ℕ)

abbrev or_days : Option ℕ → ℕ → ℕ
or_days none n = n
or_days (some k) n = k

-- `freshness_for`
unfoldable pub freshness_for : StalenessPolicy → String → ℕ
freshness_for p relation = elim p.relation_overrides [
  | none ↦ p.freshness_days
  | some overrides ↦ or_days (get overrides relation) p.freshness_days
]
