-- ===== src/Memory/Path.antt =====
-- `dependency_path_for_claim` and `proof_trace_for_claim` of src/vcse/memory/world_state.py: the
-- depth-first walk over the dependencies of a claim, dependencies before their dependents.
pub mod Unseen
pub mod Walk
pub mod Correct
use vcse.Prelude.{
  ℕ, zero, suc, ◌+◌, String, true, false, Option, none, some, List, [], ◌∷◌, ◌++◌, contains,
  string_eq, length, map,
}
use vcse.Dict.{Dict, get}
use vcse.Memory.Model.{State, Claim, claim_text}

-- The two collections that `visit` extends; `seen` is a set.
pub record Visit : Type 0 where
  pub seen : List String
  pub ordered : List String

abbrev pub mark : String → Visit → Visit
mark id v = record v { seen = id ∷ v.seen }

abbrev pub finish : String → Option Visit → Option Visit
finish id none = none
finish id (some v) = some (record v { ordered = v.ordered ++ id ∷ [] })

-- `for dependency_id in claim.dependencies: visit(dependency_id)`
unfoldable pub visit_each : (String → Visit → Option Visit) → List String → Visit → Option Visit
visit_each go [] v = some v
visit_each go (d ∷ ds) v = elim (go d v) [ none ↦ none | some v' ↦ visit_each go ds v' ]

abbrev pub enter : (String → Visit → Option Visit) → String → Option Claim → Visit → Option Visit
enter go id none v = some (mark id v)
enter go id (some c) v = finish id (visit_each go c.dependencies (mark id v))

-- `visit`, by fuel for the depth of the recursion; `none` means that it ran out.
unfoldable pub visit : ℕ → Dict String Claim → String → Visit → Option Visit
unfolding visit_each
visit zero claims id v = none
visit (suc fuel) claims id v = elim (contains id v.seen) [
  | true ↦ some v
  | false ↦ enter (visit fuel claims) id (get claims id) v
]

abbrev pub fresh_visit : Visit
fresh_visit = record { seen = []; ordered = [] }

-- Each level of the recursion marks one more claim, so one level more than there are claims is
-- enough (Memory/Path/Walk).
unfoldable pub walk : Dict String Claim → String → Option Visit
unfolding visit
walk claims id = visit (length claims + 1) claims id fresh_visit

abbrev pub ordered_or_nil : Option Visit → List String
ordered_or_nil none = []
ordered_or_nil (some v) = v.ordered

unfoldable pub dependency_path_for_claim : State → String → List String
unfolding walk
dependency_path_for_claim s id = ordered_or_nil (walk s.claims id)

-- `self.claims[item].text`; the path holds ids of claims only (Memory/Path/Walk).
abbrev pub text_at : Dict String Claim → String → String
text_at claims id = elim (get claims id) [ none ↦ "" | some c ↦ claim_text c ]

unfoldable pub proof_trace_for_claim : State → String → List String
unfolding dependency_path_for_claim
proof_trace_for_claim s id = map (text_at s.claims) (dependency_path_for_claim s id)
