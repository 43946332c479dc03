-- ===== src/Tests/Memory.antt =====
-- src/vcse/memory at small inputs.
use vcse.Prelude.{
  none, false, true, String, [], ◌∷◌, some, ◌≡◌, ◌≢◌, ◌↔◌, refl, contains, string_eq, ap,
}
use vcse.Dict.{get, set}
use vcse.Value.{asserted, unknown}
use vcse.Text.Decimal.{show}
use vcse.Text.Norm.{norm, is_space}
use vcse.Memory.Keys.{Key, key_beq, canonical_claim_key, norm_qualifiers, dict_of}
use vcse.Memory.Model.{State, Claim, claim_text}
use vcse.Memory.{
  add_claim, find_claim, claim_id, add_relation_schema, add_goal, add_claim_at, insert_claim,
  new_claim,
}
use vcse.Memory.Claims.{IsWellFormed, Matches}
use vcse.Memory.{get_relation_schema}
use vcse.Memory.Model.{RelationSchema, canonical_name, empty_state}
use vcse.Prelude.{true, false}
use vcse.Memory.AddClaim.{find_claim-add_claim, add_claim_again, find_claim-add_claim_ne}
use vcse.Memory.Calls.{claim, run, Reach-IsWellFormed, version_detects_change}
use vcse.Memory.Path.{dependency_path_for_claim, proof_trace_for_claim}
use vcse.Memory.Path.Unseen.{In}
use vcse.Memory.Path.Walk.{RestsOn}
use vcse.Memory.Path.Correct.{dependency_path_iff}
use vcse.Tests.Samples.{premises_state, solved_state, premises_Reach, premises-IsWellFormed}

-- The definitions that a run goes through
unfoldable pub memory : Unit {0}
unfolding run add_relation_schema add_claim add_claim_at insert_claim new_claim add_goal
    canonical_claim_key norm_qualifiers norm is_space key_beq claim_id show dict_of get set contains
    proof_trace_for_claim dependency_path_for_claim claim_text find_claim
memory = tt

-- The trace of an inferred claim lists its premises first.
trace-solved_state :
    proof_trace_for_claim solved_state "claim:3"
    ≡ "Socrates is_a Man" ∷ "Man is_a Mortal" ∷ "Socrates is_a Mortal" ∷ []
unfolding memory
trace-solved_state = refl

Reach-IsWellFormed_example : IsWellFormed premises_state
Reach-IsWellFormed_example = Reach-IsWellFormed premises_Reach

abbrev padded : State × String
padded = add_claim premises_state " a " "is_a" "b" asserted [] [] "memory"

find_claim-add_claim_example :
    (c : Claim) × (find_claim padded.0 " a " "is_a" "b" [] ≡ some c)
    × (c.id ≡ padded.1)
    × Matches (canonical_claim_key " a " "is_a" "b" []) c
find_claim-add_claim_example =
    find_claim-add_claim premises_state premises-IsWellFormed " a " "is_a" "b" asserted [] []
      "memory"

add_claim_again_example : add_claim padded.0 " a " "is_a" "b" unknown [] [] "user" ≡ padded
add_claim_again_example =
    add_claim_again premises_state premises-IsWellFormed " a " "is_a" "b" asserted [] [] "memory"
      unknown [] "user"

other_key : canonical_claim_key " a " "is_a" "b" [] ≢ canonical_claim_key "Man" "is_a" "Mortal" []
unfolding memory
other_key e = cc (ap (λ (k : Key). k.subject) e)

find_claim-add_claim_ne_example :
    find_claim padded.0 "Man" "is_a" "Mortal" []
    ≡ find_claim premises_state "Man" "is_a" "Mortal" []
find_claim-add_claim_ne_example =
    find_claim-add_claim_ne premises_state premises-IsWellFormed " a " "is_a" "b" asserted [] []
      "memory" "Man" "is_a" "Mortal" [] other_key

version_detects_change_example :
    ((run premises_state (claim "Man" "is_a" "Mortal" asserted [] [] "memory")).version
      ≡ premises_state.version)
    ↔ (run premises_state (claim "Man" "is_a" "Mortal" asserted [] [] "memory") ≡ premises_state)
version_detects_change_example =
    version_detects_change premises_state (claim "Man" "is_a" "Mortal" asserted [] [] "memory")

dependency_path_iff_example :
    In "claim:1" (dependency_path_for_claim solved_state "claim:3")
    ↔ RestsOn solved_state.claims "claim:1" "claim:3"
dependency_path_iff_example = dependency_path_iff solved_state "claim:3" "claim:1"

-- A name with a run of inner spaces, which no lookup finds
abbrev spaced : RelationSchema
spaced = record {
  name = "part  of";
  symmetric = false;
  transitive = true;
  reflexive = false;
  functional = false;
  inverse = none;
}

spaced_lost : get_relation_schema (add_relation_schema empty_state spaced) "part  of" ≡ none
unfolding memory get_relation_schema canonical_name
spaced_lost = refl
