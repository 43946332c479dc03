-- ===== src/Verifier/Stack.antt =====
-- `VerifierStack.default().evaluate` of src/vcse/verifier/stack.py: the four verifiers in order. Two
-- of them write contradictions to the state, and those after them see these.
pub mod Writes
use vcse.Prelude.{◌+◌, String, Bool, ◌&&◌, List, [], ◌∷◌, ◌++◌, if◌then◌else◌}
use vcse.Memory.Model.{State}
use vcse.Verifier.Base.{Reason, VerificationResult}
use vcse.Verifier.Final.{Score}
use vcse.Verifier.Claims
use vcse.Verifier.Constraints
use vcse.Verifier.Contradictions
use vcse.Verifier.Goals

pub record VerifierStackResult : Type 0 where
  pub passed : Bool
  pub score : Score
  pub status : String
  pub reasons : List Reason
  pub affected_elements : List String
  pub results : List VerificationResult

-- The result from those of the four verifiers
unfoldable pub combine : (a b c d : VerificationResult) → VerifierStackResult
combine a b c d =
    let passed = a.passed && b.passed && c.passed && d.passed in
    record {
      passed = passed;
      score = record { tenths = a.score + b.score + c.score + d.score; count = 4 };
      status = if passed then "VERIFIER_STACK_PASSED" else "VERIFIER_STACK_FAILED";
      reasons = a.reasons ++ (b.reasons ++ (c.reasons ++ d.reasons));
      affected_elements =
          a.affected_elements
          ++ (b.affected_elements ++ (c.affected_elements ++ d.affected_elements));
      results = a ∷ b ∷ c ∷ d ∷ [];
    }

-- `evaluate`, with the state that the verifiers leave
unfoldable pub evaluate : State → State × VerifierStackResult
evaluate s =
    let claims = Claims.evaluate s in
    let (s1, constraints) = Constraints.evaluate s in
    let (s2, contradictions) = Contradictions.evaluate s1 in
    (s2, combine claims constraints contradictions (Goals.evaluate s2))
