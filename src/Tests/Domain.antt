-- ===== src/Tests/Domain.antt =====
-- src/vcse/proposer/domain_specific.py at a small input.
use vcse.Prelude.{
  String, true, none, some, Option, ◌==◌, string_eq, All, length, ◌≤◌, if◌then◌else◌, ◌≡◌, refl,
}
use vcse.Number.{Number, finite}
use vcse.Proposer.Domain.{propose_domain}
use vcse.Proposer.Domain.Reason.{HasReason}
use vcse.Proposer.Domain.Correct.{propose_domain-HasReason}
use vcse.Tests.Samples.{bound_state}
use vcse.Tests.Search.{searching}

abbrev seven : String → Option Number
seven t = if t == "7" then some (finite 7 0 0) else none

-- The two constraints on x hold of 3.5, and each gets its evidence.
two_supports :
    length (propose_domain seven (λ n. true) (λ n. "7") (λ n. "7.0") 32 bound_state none) ≡ 2
unfolding propose_domain searching
two_supports = refl

propose_domain-HasReason_example :
    All
      (HasReason seven (λ n. true) (λ n. "7") (λ n. "7.0") bound_state)
      (propose_domain seven (λ n. true) (λ n. "7") (λ n. "7.0") 32 bound_state none)
    × (length (propose_domain seven (λ n. true) (λ n. "7") (λ n. "7.0") 32 bound_state none) ≤ 32)
propose_domain-HasReason_example =
    propose_domain-HasReason seven (λ n. true) (λ n. "7") (λ n. "7.0") bound_state 32 none
