-- ===== src/Tests/Engine.antt =====
-- src/vcse/engine.py and src/vcse/proposer at small inputs.
use vcse.Prelude.{[], ◌∷◌, none, some, ◌≡◌, refl, All, length, ◌≤◌}
use vcse.Value.{text}
use vcse.Memory.Claims.{IsWellFormed}
use vcse.Engine.Whole.{IsCaseState, state_from_case-IsCaseState}
use vcse.Engine.{Case, present, absent, built, state_from_case}
use vcse.Proposer.Rules.{propose}
use vcse.Proposer.Rules.Justified.{IsJustified}
use vcse.Proposer.Rules.Correct.{propose-IsJustified}
use vcse.Tests.Samples.{infer, premises_state}
use vcse.Tests.Search.{searching}

abbrev socrates : Case
socrates = record {
  facts = present (
      some (("subject", text "Socrates") ∷ ("relation", text "is_a") ∷ ("object", text "Man") ∷ [])
      ∷ some (("subject", text "Man") ∷ ("relation", text "is_a") ∷ ("object", text "Mortal") ∷ [])
      ∷ []);
  constraints = absent;
  goal =
      present
        (("subject", text "Socrates") ∷ ("relation", text "is_a") ∷ ("object", text "Mortal") ∷ []);
}

-- The case gives the state of the worked example.
built_premises : state_from_case (some socrates) ≡ built premises_state
unfolding state_from_case searching
built_premises = refl

state_from_case-IsCaseState_example :
    IsWellFormed premises_state × IsCaseState socrates premises_state
state_from_case-IsCaseState_example =
    state_from_case-IsCaseState socrates premises_state built_premises

-- The rules propose the inference that solves the example.
proposed_infer : propose 32 premises_state none ≡ infer ∷ []
unfolding propose searching vcse.Proposer.Rules.propose_transitive_closure
    vcse.Proposer.Rules.extends vcse.Proposer.Rules.propose_equality_propagation
    vcse.Proposer.Rules.propose_contradiction_candidates
proposed_infer = refl

propose-IsJustified_example :
    All (IsJustified premises_state) (propose 32 premises_state none)
    × (length (propose 32 premises_state none) ≤ 32)
propose-IsJustified_example = propose-IsJustified 32 premises_state none
