-- ===== src/Inference/Inverse.antt =====
-- `infer_inverse_claims` of src/vcse/inference/inverse.py, with the relations of
-- src/vcse/semantic/relation_ontology.py.
pub mod Closure
use vcse.Prelude.{
  Bool, ◌==◌, string_eq, String, Option, none, some, List, [], ◌∷◌, map, if◌then◌else◌,
}
use vcse.Dict.{Dict, get}
use vcse.Inference.{KnowledgeClaim, claim_key, triple_key}
use vcse.Inference.Fresh.{Found, admit}

pub record RelationDefinition : Type 0 where
  pub canonical : String
  pub inverse : Option String

-- `RELATION_MAP`
abbrev pub relation_map : Dict String RelationDefinition
relation_map =
    ("has_capital", record { canonical = "has_capital"; inverse = some "capital_of" })
    ∷ ("capital_of", record { canonical = "has_capital"; inverse = some "capital_of" })
    ∷ []

pub record InferredClaim : Type 0 where
  pub subject : String
  pub relation : String
  pub object : String
  pub derived_from : String
  pub rule : String
  pub trust_tier : String

-- `InferredClaim.key`
unfoldable pub inverse_key : InferredClaim → String
unfolding triple_key
inverse_key c = triple_key c.subject c.relation c.object

unfoldable pub invert : KnowledgeClaim → (inverse_relation : String) → InferredClaim
unfolding claim_key
invert c inverse_relation = record {
  subject = c.object;
  relation = inverse_relation;
  object = c.subject;
  derived_from = claim_key c;
  rule = "inverse_relation";
  trust_tier = "T1_INFERRED";
}

-- The inverse of a relation, unless there is none or it is the relation itself
unfoldable pub inverse_of : (relation : String) → Option String
inverse_of relation = elim (get relation_map relation) [
  | none ↦ none
  | some d ↦ elim d.inverse [ none ↦ none | some i ↦ if i == relation then none else some i ]
]

-- A round of the loop
unfoldable pub admit_inverse :
    (explicit_keys : List String)
    → KnowledgeClaim
    → Option String
    → Found InferredClaim
    → Found InferredClaim
unfolding invert inverse_key admit
admit_inverse explicit_keys c none s = s
admit_inverse explicit_keys c (some i) s = admit inverse_key explicit_keys (invert c i) s

unfoldable pub infer_inverses :
    (explicit_keys : List String) → List KnowledgeClaim → Found InferredClaim → Found InferredClaim
unfolding inverse_of admit_inverse
infer_inverses explicit_keys [] s = s
infer_inverses explicit_keys (c ∷ claims) s =
    infer_inverses explicit_keys claims (admit_inverse explicit_keys c (inverse_of c.relation) s)

unfoldable pub infer_inverse_claims : List KnowledgeClaim → List InferredClaim
unfolding infer_inverses claim_key
infer_inverse_claims claims =
    (infer_inverses (map claim_key claims) claims
      (record { inferred = []; inferred_keys = [] })).inferred
