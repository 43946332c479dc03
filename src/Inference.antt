-- ===== src/Inference.antt =====
-- The inference over the claims of a knowledge pack: src/vcse/inference. `KnowledgeClaim` is of
-- src/vcse/knowledge/pack_model.py; `str.lower` is a parameter.
pub mod Fresh
pub mod Transitive
pub mod Inverse
use vcse.Prelude.{String, Option, List, [], ◌∷◌}
use vcse.Number.{Number}
use vcse.Dict.{Dict}
use vcse.Memory.Keys.{concat}

pub record KnowledgeProvenance : Type 0 where
  pub source_id : String
  pub source_type : String
  pub location : String
  pub evidence_text : String
  pub trust_level : String
  pub confidence : Number

pub record KnowledgeClaim : Type 0 where
  pub subject : String
  pub relation : String
  pub object : String
  pub provenance : KnowledgeProvenance
  pub qualifiers : Dict String String
  pub confidence : Number
  pub trust_tier : String
  pub trust_flags : List String
  pub source_ids : List String
  pub claim_hash : String
  pub created_at : String
  pub certified_at : Option String
  pub supersedes : Option String

-- `"|".join([subject, relation, object])`
unfoldable pub triple_key : (subject relation object : String) → String
triple_key subject relation object = concat (subject ∷ "|" ∷ relation ∷ "|" ∷ object ∷ [])

-- `KnowledgeClaim.key`
unfoldable pub claim_key : KnowledgeClaim → String
unfolding triple_key
claim_key c = triple_key c.subject c.relation c.object
