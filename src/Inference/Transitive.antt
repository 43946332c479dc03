-- ===== src/Inference/Transitive.antt =====
-- `infer_transitive_claims` of src/vcse/inference/transitive.py.
mod Lookup
pub mod Closure
use vcse.Prelude.{
  Bool, true, false, not, ◌==◌, string_eq, pair_eq, String, Option, none, some, List, [], ◌∷◌, ◌++◌,
  map, if◌then◌else◌,
}
use vcse.Dict.{Dict, get, set}
use vcse.Inference.{KnowledgeClaim, claim_key, triple_key}
use vcse.Inference.Fresh.{Found, admit_all}

pub record TransitiveInferredClaim : Type 0 where
  pub subject : String
  pub relation : String
  pub object : String
  pub derived_from : String × String
  pub rule : String
  pub trust_tier : String

-- `TransitiveInferredClaim.key`
unfoldable pub inferred_key : TransitiveInferredClaim → String
unfolding triple_key
inferred_key c = triple_key c.subject c.relation c.object

-- The claim that two claims give
unfoldable pub chain : KnowledgeClaim → KnowledgeClaim → TransitiveInferredClaim
unfolding claim_key
chain first second = record {
  subject = first.subject;
  relation = "located_in_region";
  object = second.object;
  derived_from = (claim_key first, claim_key second);
  rule = "transitive_location_containment";
  trust_tier = "T1_INFERRED";
}

abbrev pub Index : Type 0
Index = Dict (String × String) (List KnowledgeClaim)

-- `by_subject_relation.get(key, [])`
unfoldable pub look : Index → String × String → List KnowledgeClaim
look d k = elim (get d k) [ none ↦ [] | some cs ↦ cs ]

module _ (lower : String → String) where
  unfoldable pub index_key : KnowledgeClaim → String × String
  index_key c = (lower c.subject, lower c.relation)

  -- The loop that fills `by_subject_relation`
  unfoldable pub index_claims : List KnowledgeClaim → Index → Index
  unfolding look index_key
  index_claims [] d = d
  index_claims (c ∷ cs) d = index_claims cs (set d (index_key c) (look d (index_key c) ++ c ∷ []))

  -- `second_candidates`
  unfoldable pub second_candidates : Index → KnowledgeClaim → List KnowledgeClaim
  unfolding look
  second_candidates d first =
      look d (lower first.object, "part_of") ++ look d (lower first.object, "located_in_region")

  -- The round for `first`
  unfoldable pub infer_from :
      (explicit_keys : List String)
      → Index
      → KnowledgeClaim
      → Found TransitiveInferredClaim
      → Found TransitiveInferredClaim
  unfolding second_candidates chain inferred_key admit_all
  infer_from explicit_keys d first s =
      if not (first.relation == "located_in_country")
      then s
      else admit_all inferred_key explicit_keys (map (chain first) (second_candidates d first)) s

  unfoldable pub infer_each :
      (explicit_keys : List String)
      → Index
      → List KnowledgeClaim
      → Found TransitiveInferredClaim
      → Found TransitiveInferredClaim
  unfolding infer_from
  infer_each explicit_keys d [] s = s
  infer_each explicit_keys d (first ∷ claims) s =
      infer_each explicit_keys d claims (infer_from explicit_keys d first s)

  unfoldable pub infer_transitive_claims : List KnowledgeClaim → List TransitiveInferredClaim
  unfolding infer_each index_claims claim_key
  infer_transitive_claims claims =
      (infer_each (map claim_key claims) (index_claims claims []) claims
        (record { inferred = []; inferred_keys = [] })).inferred
