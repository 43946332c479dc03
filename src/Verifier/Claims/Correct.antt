-- ===== src/Verifier/Claims/Correct.antt =====
-- When `ClaimVerifier.evaluate` (src/vcse/verifier/claim_verifier.py) passes: an independent account
-- of which claims are acceptable.
use vcse.Prelude.{String, true, false, ◌≡◌, none, some, All, is_some, is_empty, string_eq}
use vcse.Value.{supported}
use vcse.Memory.Model.{State, Claim}
use vcse.Memory.{get_claim, unknown_relation}
use vcse.Verifier.Claims.{premises}

-- `c` follows from `left` and `right` by transitivity of its relation.
pub record Chains (c left right : Claim) : Type 0 where
  pub relation_left : left.relation ≡ c.relation
  pub relation_right : right.relation ≡ c.relation
  pub subject : left.subject ≡ c.subject
  pub middle : left.object ≡ right.subject
  pub object : right.object ≡ c.object

-- The claim with this id has support: two stored premises that chain, where its relation is
-- transitive and it has two dependencies, and otherwise dependencies that are all stored.
pub data IsBacked (s : State) (id : String) : Type 0 where
  chained :
      (c left right : Claim) (a b : String)
      → get_claim s id ≡ some c
      → premises s c ≡ some (a, b)
      → get_claim s a ≡ some left
      → get_claim s b ≡ some right
      → Chains c left right
      → IsBacked s id
  present :
      (c : Claim)
      → get_claim s id ≡ some c
      → premises s c ≡ none
      → All (λ i. is_some (get_claim s i) ≡ true) c.dependencies
      → IsBacked s id

pub record IsAcceptable (s : State) (c : Claim) : Type 0 where
  pub known : unknown_relation s c.relation ≡ false
  pub backed : c.status ≡ supported → (is_empty c.dependencies ≡ false) × IsBacked s c.id
