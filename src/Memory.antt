-- ===== src/Memory.antt =====
-- src/vcse/memory: the world state. `WorldStateMemory` of world_state.py is the record `State`
-- (Memory/Model), and each of its methods is a function that returns the new state with its
-- result. Arguments that Python passes through `str` are given as the texts that `str` returns.
pub mod Keys
pub mod Model
pub mod Claims
pub mod AddClaim
pub mod Growth
pub mod Calls
pub mod Path
use vcse.Prelude.{
  ℕ, suc, ◌+◌, String, Bool, true, false, not, ◌&&◌, Option, none, some, List, [], ◌∷◌, ◌++◌,
  string_eq, is_empty, any, length, is_some, if◌then◌else◌,
}
use vcse.Dict.{Dict, get, set, values}
use vcse.Value.{Value, TruthStatus}
use vcse.Text.Decimal.{show}
use vcse.Text.Norm.{norm}
use Keys.{Key, key_eq, canonical_claim_key, norm_qualifiers, dict_of, concat}
use Model.{State, Claim, Goal, Contradiction, RelationSchema, Constraint, Evidence, canonical_name}

-- `clone`: records are copied by value here, as `deepcopy` does.
unfoldable pub clone : State → State
clone s = record s { parent_version = some s.version }

unfoldable pub add_relation_schema : State → RelationSchema → State
add_relation_schema s schema = record s {
  relation_schemas = set s.relation_schemas (canonical_name schema) schema;
  version = s.version + 1;
}

unfoldable pub get_relation_schema : State → String → Option RelationSchema
get_relation_schema s relation = get s.relation_schemas (norm relation)

-- `state.relation_schemas and state.get_relation_schema(relation) is None`
unfoldable pub unknown_relation : State → String → Bool
unknown_relation s relation =
    not (is_empty s.relation_schemas) && not (is_some (get_relation_schema s relation))

unfoldable pub claim_id : ℕ → String
claim_id n = concat ("claim:" ∷ show n ∷ [])

unfoldable pub new_claim : Key → String → TruthStatus → List String → String → Claim
new_claim key id status dependencies source = record {
  id = id;
  subject = key.subject;
  relation = key.relation;
  object = key.object;
  status = status;
  qualifiers = dict_of [] key.qualifiers;
  dependencies = dependencies;
  source = source;
}

unfoldable pub insert_claim : State → Key → TruthStatus → List String → String → State
unfolding new_claim
insert_claim s key status dependencies source =
    let id = claim_id s.next_claim_num in
    record s {
      claims = set s.claims id (new_claim key id status dependencies source);
      claim_index = set s.claim_index key id;
      version = s.version + 1;
      next_claim_num = s.next_claim_num + 1;
    }

-- `add_claim` from its `existing` on
unfoldable pub add_claim_at :
    State → Key → TruthStatus → List String → String → Option String → State × String
unfolding insert_claim
add_claim_at s key status dependencies source (some existing) = (s, existing)
add_claim_at s key status dependencies source none =
    (insert_claim s key status dependencies source, claim_id s.next_claim_num)

unfoldable pub add_claim :
    State
    → (subject relation object : String) → TruthStatus
    → (qualifiers : List (String × String)) → (dependencies : List String) → (source : String)
    → State × String
unfolding add_claim_at
add_claim s subject relation object status qualifiers dependencies source =
    let key = canonical_claim_key subject relation object qualifiers in
    add_claim_at s key status dependencies source (get s.claim_index key)

unfoldable pub get_claim : State → String → Option Claim
get_claim s id = get s.claims id

-- `self.claims[claim_id]` raises a KeyError where the index names no claim; a well-formed state
-- has none of these (Memory/Claims), and `none` stands for it here.
unfoldable pub find_claim :
    State → (subject relation object : String) → List (String × String) → Option Claim
find_claim s subject relation object qualifiers =
    elim (get s.claim_index (canonical_claim_key subject relation object qualifiers)) [
      | none ↦ none
      | some id ↦ get s.claims id
    ]

unfoldable pub add_goal : State → (subject relation object : String) → State × String
add_goal s subject relation object =
    let id = concat ("goal:" ∷ show s.next_goal_num ∷ []) in
    let goal : Goal = record {
      id = id;
      subject = norm subject;
      relation = norm relation;
      object = norm object;
    } in
    (
      record s {
        goals = s.goals ++ goal ∷ [];
        version = s.version + 1;
        next_goal_num = s.next_goal_num + 1;
      },
      id,
    )

unfoldable pub add_constraint : State → Constraint → State
add_constraint s c = record s { constraints = s.constraints ++ c ∷ []; version = s.version + 1 }

unfoldable pub constraint_id_for_index : ℕ → String
constraint_id_for_index index = concat ("constraint:" ∷ show (index + 1) ∷ [])

unfoldable pub update_truth_status : State → String → TruthStatus → State × Bool
update_truth_status s id status = elim (get s.claims id) [
  | none ↦ (s, false)
  | some claim ↦ (
    record s {
      claims = set s.claims id (record claim { status = status });
      version = s.version + 1;
    },
    true,
  )
]

unfoldable pub bind_symbol : State → (name : String) → Value → State × String
bind_symbol s name value =
    let symbol = norm name in
    (
      record s { symbol_bindings = set s.symbol_bindings symbol value; version = s.version + 1 },
      concat ("symbol:" ∷ symbol ∷ []),
    )

abbrev pub or_nil {ℓ} : {A : Type ℓ} → Option (List A) → List A
or_nil none = []
or_nil (some xs) = xs

unfoldable pub add_evidence : State → (target_id content source : String) → State × String
add_evidence s target_id content source =
    let entry : Evidence = record { content = norm content; source = norm source } in
    let entries = or_nil (get s.evidence target_id) ++ entry ∷ [] in
    (
      record s { evidence = set s.evidence target_id entries; version = s.version + 1 },
      concat ("evidence:" ∷ target_id ∷ ":" ∷ show (length entries) ∷ []),
    )

-- `self.contradictions.setdefault(item, []).append(contradiction)`
unfoldable pub append_contradiction :
    Dict String (List Contradiction) → String → Contradiction → Dict String (List Contradiction)
append_contradiction d item c = set d item (or_nil (get d item) ++ c ∷ [])

unfoldable pub append_all :
    Dict String (List Contradiction)
    → List String
    → Contradiction
    → Dict String (List Contradiction)
unfolding append_contradiction
append_all d [] c = d
append_all d (item ∷ items) c = append_all (append_contradiction d item c) items c

unfoldable pub record_contradiction :
    State
    → (element_id reason : String) → (related : List String) → (severity : String) → State × String
unfolding append_all
record_contradiction s element_id reason related severity =
    let id = concat ("contradiction:" ∷ show s.next_contradiction_num ∷ []) in
    let element_ids = element_id ∷ related in
    let contradiction : Contradiction = record {
      id = id;
      element_ids = element_ids;
      reason = reason;
      severity = severity;
    } in
    (
      record s {
        contradictions = append_all s.contradictions element_ids contradiction;
        version = s.version + 1;
        next_contradiction_num = s.next_contradiction_num + 1;
      },
      id,
    )

unfoldable pub get_contradictions_for : State → String → List Contradiction
get_contradictions_for s id = or_nil (get s.contradictions id)

unfoldable pub has_contradiction_on_path : State → List String → Bool
has_contradiction_on_path s ids = any (λ id. not (is_empty (get_contradictions_for s id))) ids
