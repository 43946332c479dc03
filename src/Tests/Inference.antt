-- ===== src/Tests/Inference.antt =====
-- src/vcse/inference on two facts about a city, and one about a capital.
use vcse.Prelude.{◌≡◌, refl, String, none, List, [], ◌∷◌, string_eq, pair_eq}
use vcse.Number.{finite}
use vcse.Inference.{KnowledgeClaim}
use vcse.Inference.Transitive.{TransitiveInferredClaim, infer_transitive_claims}
use vcse.Inference.Transitive.Closure.{IsClosure, infer_transitive_claims-IsClosure}
use vcse.Inference.Inverse.{InferredClaim, infer_inverse_claims}
use vcse.Inference.Inverse.Closure.{IsInverseClosure, infer_inverse_claims-IsInverseClosure}

abbrev fact : (subject relation object : String) → KnowledgeClaim
fact s r o = record {
  subject = s;
  relation = r;
  object = o;
  provenance = record {
    source_id = "atlas";
    source_type = "text";
    location = "p. 1";
    evidence_text = "";
    trust_level = "unrated";
    confidence = finite 1 0 0;
  };
  qualifiers = [];
  confidence = finite 1 0 0;
  trust_tier = "T0_CANDIDATE";
  trust_flags = [];
  source_ids = [];
  claim_hash = "";
  created_at = "2026-01-01";
  certified_at = none;
  supersedes = none;
}

abbrev same : String → String
same s = s

abbrev facts : List KnowledgeClaim
facts =
    fact "Paris" "located_in_country" "France"
    ∷ fact "France" "part_of" "Europe"
    ∷ fact "France" "has_capital" "Paris"
    ∷ []

abbrev paris_in_europe : TransitiveInferredClaim
paris_in_europe = record {
  subject = "Paris";
  relation = "located_in_region";
  object = "Europe";
  derived_from = ("Paris|located_in_country|France", "France|part_of|Europe");
  rule = "transitive_location_containment";
  trust_tier = "T1_INFERRED";
}

infer-facts : infer_transitive_claims same facts ≡ paris_in_europe ∷ []
unfolding infer_transitive_claims vcse.Dict.get vcse.Dict.set vcse.Prelude.contains
infer-facts = refl

abbrev capital_of_france : InferredClaim
capital_of_france = record {
  subject = "Paris";
  relation = "capital_of";
  object = "France";
  derived_from = "France|has_capital|Paris";
  rule = "inverse_relation";
  trust_tier = "T1_INFERRED";
}

invert-facts : infer_inverse_claims facts ≡ capital_of_france ∷ []
unfolding infer_inverse_claims vcse.Dict.get vcse.Prelude.contains
invert-facts = refl

-- A fact about a capital that is stored under the other relation has no inverse.
invert-other : infer_inverse_claims (fact "Paris" "capital_of" "France" ∷ []) ≡ []
unfolding infer_inverse_claims vcse.Dict.get
invert-other = refl

infer_transitive_claims-IsClosure_example :
    IsClosure same facts (infer_transitive_claims same facts)
infer_transitive_claims-IsClosure_example = infer_transitive_claims-IsClosure same facts

infer_inverse_claims-IsInverseClosure_example : IsInverseClosure facts (infer_inverse_claims facts)
infer_inverse_claims-IsInverseClosure_example = infer_inverse_claims-IsInverseClosure facts
