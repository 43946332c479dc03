-- ===== src/Verifier/Claims.antt =====
-- `ClaimVerifier` of src/vcse/verifier/claim_verifier.py.
pub mod Correct
use vcse.Prelude.{
  String, Bool, true, false, not, ◌&&◌, ◌==◌, string_eq, Option, none, some, List, [], ◌∷◌, ◌++◌,
  is_empty, is_some, filterb, if◌then◌else◌,
}
use vcse.Dict.{values}
use vcse.Value.{TruthStatus, asserted, supported, refuted, assumed, unknown}
use vcse.Memory.Keys.{concat, join_comma}
use vcse.Memory.Model.{State, Claim, RelationSchema, claim_text}
use vcse.Memory.{get_relation_schema, get_claim, unknown_relation}
use vcse.Verifier.Base.{Reason, says, VerificationResult, pass_result, fail_result}

abbrev pub is_supported : TruthStatus → Bool
is_supported supported = true
is_supported _ = false

abbrev pub pair_of : List String → Option (String × String)
pair_of (a ∷ b ∷ []) = some (a, b)
pair_of _ = none

abbrev pub is_transitive : Option RelationSchema → Bool
is_transitive none = false
is_transitive (some schema) = schema.transitive

-- `schema is not None and schema.transitive and len(claim.dependencies) == 2`, with the two
unfoldable pub premises : State → Claim → Option (String × String)
premises s c =
    if is_transitive (get_relation_schema s c.relation) then pair_of c.dependencies else none

-- The condition on `left` and `right`
unfoldable pub links : Claim → Option Claim → Option Claim → Bool
links c none right = false
links c (some left) none = false
links c (some left) (some right) =
    left.relation == c.relation
    && right.relation == c.relation
    && left.subject == c.subject
    && left.object == right.subject
    && right.object == c.object

unfoldable pub verify_links : State → Claim → String × String → VerificationResult
verify_links s c (left, right) =
    if links c (get_claim s left) (get_claim s right)
    then pass_result "CLAIM_SUPPORTED" 10
        (says (concat ("Transitive support verified for " ∷ claim_text c ∷ [])) ∷ []) (c.id ∷ [])
    else fail_result "INVALID_SUPPORT"
        (says (concat ("Dependencies do not support " ∷ claim_text c ∷ [])) ∷ []) (c.id ∷ [])

-- The ids that name no claim
unfoldable pub missing_dependencies : State → Claim → List String
missing_dependencies s c = filterb (λ id. not (is_some (get_claim s id))) c.dependencies

unfoldable pub verify_present : State → Claim → VerificationResult
verify_present s c =
    let missing = missing_dependencies s c in
    if not (is_empty missing)
    then fail_result "INVALID_SUPPORT"
        (says (concat ("Missing dependencies for " ∷ claim_text c ∷ ": " ∷ join_comma missing ∷ []))
          ∷ [])
        (c.id ∷ missing)
    else pass_result "CLAIM_SUPPORTED" 10
        (says (concat ("Dependency support present for " ∷ claim_text c ∷ [])) ∷ []) (c.id ∷ [])

unfoldable pub verify_claim : State → Claim → VerificationResult
verify_claim s c = elim (premises s c) [
  | some two ↦ verify_links s c two
  | none ↦ verify_present s c
]

-- `_verify_dependency_support`
unfoldable pub verify_dependency_support : State → String → VerificationResult
verify_dependency_support s id = elim (get_claim s id) [
  | none ↦ fail_result "UNKNOWN_CLAIM" (says (concat ("Unknown claim " ∷ id ∷ [])) ∷ []) (id ∷ [])
  | some c ↦ verify_claim s c
]

abbrev pub or_default : List Reason → String → List Reason
or_default [] message = says message ∷ []
or_default (r ∷ rs) message = r ∷ rs

-- The loop of `evaluate`, with the reasons and elements collected so far. Both branches of its
-- score give 1.0.
unfoldable pub verify_each : State → List Claim → List Reason → List String → VerificationResult
verify_each s [] reasons affected =
    pass_result "CLAIMS_VERIFIED" 10 (or_default reasons "Claims are schema-valid") affected
verify_each s (c ∷ cs) reasons affected =
    let support = verify_dependency_support s c.id in
    let next = verify_each s cs reasons affected in
    let supported_next =
      verify_each s cs (reasons ++ support.reasons) (affected ++ support.affected_elements) in
    if unknown_relation s c.relation
    then fail_result "UNKNOWN_RELATION"
        (says (concat ("Claim " ∷ c.id ∷ " uses unknown relation " ∷ c.relation ∷ [])) ∷ [])
        (c.id ∷ [])
    else if not (is_supported c.status)
    then next
    else if is_empty c.dependencies
    then fail_result "UNSUPPORTED_CLAIM"
        (says (concat ("Supported claim " ∷ c.id ∷ " has no dependencies" ∷ [])) ∷ []) (c.id ∷ [])
    else if not support.passed
    then support
    else supported_next

-- `evaluate`
unfoldable pub evaluate : State → VerificationResult
unfolding verify_each
evaluate s = verify_each s (values s.claims) [] []
