-- ===== src/Verifier/Base.antt =====
-- `VerificationResult` of src/vcse/verifier/base.py. Scores are tenths: the code gives 0.0, 0.4,
-- 0.7, 0.8 and 1.0 only. Every result is made by `pass_result` or `fail_result`, which leave
-- `proof_count` at 0 and `proof_trace` empty.
use vcse.Prelude.{ℕ, String, Bool, true, false, List, []}
use vcse.Value.{Value}

-- A reason is a text. The one text that prints the `repr` of a value is kept as that value.
pub data Reason : Type 0 where
  says : String → Reason
  invalid_status : Value → Reason

pub record VerificationResult : Type 0 where
  pub passed : Bool
  pub score : ℕ
  pub status : String
  pub proof_count : ℕ
  pub proof_trace : List String
  pub reasons : List Reason
  pub affected_elements : List String

abbrev pub pass_result : String → ℕ → List Reason → List String → VerificationResult
pass_result status score reasons affected = record {
  passed = true;
  score = score;
  status = status;
  proof_count = 0;
  proof_trace = [];
  reasons = reasons;
  affected_elements = affected;
}

abbrev pub fail_result : String → List Reason → List String → VerificationResult
fail_result status reasons affected = record {
  passed = false;
  score = 0;
  status = status;
  proof_count = 0;
  proof_trace = [];
  reasons = reasons;
  affected_elements = affected;
}
