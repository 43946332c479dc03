-- ===== src/Engine.antt =====
-- `state_from_case` and `CompositeProposer` of src/vcse/engine.py.
pub mod Reached
pub mod Told
pub mod Bound
pub mod Whole
use vcse.Prelude.{
  String, Bool, true, false, ◌==◌, string_eq, Option, none, some, List, [], ◌∷◌, ◌++◌, is_some,
  if◌then◌else◌,
}
use vcse.Dict.{Dict, get}
use vcse.Value.{Value, TruthStatus, str}
use vcse.Memory.Keys.{concat}
use vcse.Memory.Model.{
  State, Goal, RelationSchema, make_schema, Made, made, value_error, make_constraint, empty_state,
}
use vcse.Memory.{add_relation_schema, get_relation_schema, add_claim, add_constraint, add_goal}
use vcse.Transition.Args.{Transition, parse_status, arg_str_or}

-- `data.get(key)` of a case with the test on its type; a goal that is None is absent.
pub data Field (A : Type 0) : Type 0 where
  absent malformed : Field A
  present : A → Field A

-- An item of a list; `none` is one that is no dict.
abbrev pub Item : Type 0
Item = Option (Dict String Value)

pub record Case : Type 0 where
  pub facts : Field (List Item)
  pub constraints : Field (List Item)
  pub goal : Field (Dict String Value)

pub data Built : Type 0 where
  built : State → Built
  -- `CaseValidationError("INVALID_CASE", reason)`
  invalid_case : (reason : String) → Built
  -- a ValueError of a schema, a status or a constraint, which nothing catches
  raised : Built

abbrev pub and_then : Built → (State → Built) → Built
and_then (built s) next = next s
and_then (invalid_case reason) next = invalid_case reason
and_then raised next = raised

abbrev pub missing_key : String → String → Built
missing_key what key = invalid_case (concat (what ∷ " missing key: " ∷ key ∷ []))

-- The loop over the items of a list
unfoldable pub each_item : (State → Item → Built) → List Item → State → Built
each_item body [] s = built s
each_item body (x ∷ xs) s = and_then (body s x) (each_item body xs)

abbrev pub schema_added : State → Option RelationSchema → Built
schema_added s none = raised
schema_added s (some r) = built (add_relation_schema s r)

-- `if state.get_relation_schema(relation) is None`
unfoldable pub ensure_schema : State → String → Built
ensure_schema s relation =
    if is_some (get_relation_schema s relation)
    then built s
    else schema_added s (make_schema relation false (relation == "is_a") false false none)

abbrev pub claim_stored : State → (subject relation object : String) → Option TruthStatus → Built
claim_stored s subject relation object none = raised
claim_stored s subject relation object (some st) =
    built (add_claim s subject relation object st [] [] "memory").0

unfoldable pub store_fact : Dict String Value → String → Option Value → Option Value → State → Built
store_fact d relation none o s = missing_key "fact" "subject"
store_fact d relation (some subject) none s = missing_key "fact" "object"
store_fact d relation (some subject) (some object) s =
    claim_stored s (str subject) relation (str object)
      (parse_status (arg_str_or d "status" "ASSERTED"))

unfoldable pub fact_of_relation : State → Dict String Value → Option Value → Built
unfolding store_fact ensure_schema
fact_of_relation s d none = missing_key "fact" "relation"
fact_of_relation s d (some relation) =
    and_then (ensure_schema s (str relation))
      (store_fact d (str relation) (get d "subject") (get d "object"))

unfoldable pub add_fact : State → Item → Built
unfolding fact_of_relation
add_fact s none = invalid_case "each fact must be an object"
add_fact s (some d) = fact_of_relation s d (get d "relation")

abbrev pub constraint_made : State → Made → Built
constraint_made s (made c) = built (add_constraint s c)
constraint_made s (value_error reason) = raised

unfoldable pub constraint_of_parts :
    State → Dict String Value → (target operator value : Option Value) → Built
constraint_of_parts s d none operator value = missing_key "constraint" "target"
constraint_of_parts s d (some target) none value = missing_key "constraint" "operator"
constraint_of_parts s d (some target) (some operator) none = missing_key "constraint" "value"
constraint_of_parts s d (some target) (some operator) (some value) = constraint_made s (
    make_constraint (arg_str_or d "kind" "numeric") (str target) (str operator) value
      (arg_str_or d "description" ""))

unfoldable pub add_constraint_item : State → Item → Built
unfolding constraint_of_parts
add_constraint_item s none = invalid_case "each constraint must be an object"
add_constraint_item s (some d) =
    constraint_of_parts s d (get d "target") (get d "operator") (get d "value")

unfoldable pub goal_of_parts : State → (subject relation object : Option Value) → Built
goal_of_parts s none relation object = missing_key "goal" "subject"
goal_of_parts s (some subject) none object = missing_key "goal" "relation"
goal_of_parts s (some subject) (some relation) none = missing_key "goal" "object"
goal_of_parts s (some subject) (some relation) (some object) =
    built (add_goal s (str subject) (str relation) (str object)).0

unfoldable pub add_facts : Field (List Item) → State → Built
unfolding each_item add_fact
add_facts absent s = built s
add_facts malformed s = invalid_case "facts must be a list"
add_facts (present items) s = each_item add_fact items s

unfoldable pub add_constraints : Field (List Item) → State → Built
unfolding each_item add_constraint_item
add_constraints absent s = built s
add_constraints malformed s = invalid_case "constraints must be a list"
add_constraints (present items) s = each_item add_constraint_item items s

unfoldable pub add_case_goal : Field (Dict String Value) → State → Built
unfolding goal_of_parts
add_case_goal absent s = built s
add_case_goal malformed s = invalid_case "goal must be an object"
add_case_goal (present d) s = goal_of_parts s (get d "subject") (get d "relation") (get d "object")

-- The schema that every state of a case starts with
abbrev pub is_a_schema : RelationSchema
is_a_schema = record {
  name = "is_a";
  symmetric = false;
  transitive = true;
  reflexive = false;
  functional = false;
  inverse = none;
}

-- `state_from_case`; `none` is a root that is no object.
unfoldable pub state_from_case : Option Case → Built
unfolding add_facts add_constraints add_case_goal
state_from_case none = invalid_case "root must be an object"
state_from_case (some c) =
    and_then (add_facts c.facts (add_relation_schema empty_state is_a_schema))
      (λ s. and_then (add_constraints c.constraints s) (add_case_goal c.goal))

-- `CompositeProposer.propose`
unfoldable pub propose_all :
    List (State → Option Goal → List Transition) → State → Option Goal → List Transition
propose_all [] s goal = []
propose_all (propose ∷ rest) s goal = propose s goal ++ propose_all rest s goal
