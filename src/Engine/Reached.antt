-- ===== src/Engine/Reached.antt =====
-- What `state_from_case` (src/vcse/engine.py) builds.
use vcse.Prelude.{
  string_eq, String, ◌≡◌, subst, Option, none, some, List, [], ◌∷◌, is_some, Bool-cases, inl, inr,
}
use vcse.Dict.{Dict, get}
use vcse.Value.{Value, TruthStatus, str}
use vcse.Memory.Model.{State, Made, made, value_error, RelationSchema, empty_state}
use vcse.Memory.{add_relation_schema, get_relation_schema}
use vcse.Memory.Calls.{
  run, schema, claim, goal, constraint, Reach, start, called, Reach-IsWellFormed,
}
use vcse.Memory.Claims.{IsWellFormed}
use vcse.Engine.{
  Field, absent, malformed, present, Item, Case, Built, built, invalid_case, raised, and_then,
  each_item, schema_added, ensure_schema, claim_stored, store_fact, fact_of_relation, add_fact,
  constraint_made, constraint_of_parts, add_constraint_item, goal_of_parts, add_facts,
  add_constraints, add_case_goal, is_a_schema, state_from_case,
}

-- The states of a case: calls lead to them, and none of these is one of a verifier.
abbrev pub IsFresh : State → Type 0
IsFresh s = Reach empty_state s

abbrev pub Gives : Built → Type 0
Gives (built s) = IsFresh s
Gives _ = Unit {0}

and_then-Gives :
    (b : Built) (next : State → Built)
    → Gives b
    → ((s : State) → IsFresh s → Gives (next s))
    → Gives (and_then b next)
and_then-Gives (built s) next h go_on = go_on s h
and_then-Gives (invalid_case reason) next h go_on = tt
and_then-Gives raised next h go_on = tt

each_item-Gives :
    (body : State → Item → Built)
    → ((s : State) (x : Item) → IsFresh s → Gives (body s x))
    → (xs : List Item) (s : State) → IsFresh s
    → Gives (each_item body xs s)
unfolding each_item
each_item-Gives body keeps [] s h = h
each_item-Gives body keeps (x ∷ xs) s h =
    and_then-Gives (body s x) (each_item body xs) (keeps s x h) (each_item-Gives body keeps xs)

module _ (s : State) (h : IsFresh s) where
  schema_added-Gives : (r : Option RelationSchema) → Gives (schema_added s r)
  unfolding run
  schema_added-Gives none = tt
  schema_added-Gives (some r) = called h (schema r)

  pub ensure_schema-Gives : (relation : String) → Gives (ensure_schema s relation)
  unfolding ensure_schema
  ensure_schema-Gives relation = elim (Bool-cases (is_some (get_relation_schema s relation))) [
    | inl old ↦ rw old h
    | inr new ↦ rw new (schema_added-Gives _)
  ]

  claim_stored-Gives :
      (subject relation object : String) (st : Option TruthStatus)
      → Gives (claim_stored s subject relation object st)
  unfolding run
  claim_stored-Gives subject relation object none = tt
  claim_stored-Gives subject relation object (some st) =
      called h (claim subject relation object st [] [] "memory")

  constraint_made-Gives : (m : Made) → Gives (constraint_made s m)
  unfolding run
  constraint_made-Gives (made c) = called h (constraint c)
  constraint_made-Gives (value_error reason) = tt

  goal_of_parts-Gives :
      (subject relation object : Option Value) → Gives (goal_of_parts s subject relation object)
  unfolding goal_of_parts run
  goal_of_parts-Gives none relation object = tt
  goal_of_parts-Gives (some subject) none object = tt
  goal_of_parts-Gives (some subject) (some relation) none = tt
  goal_of_parts-Gives (some subject) (some relation) (some object) =
      called h (goal (str subject) (str relation) (str object))

  constraint_of_parts-Gives :
      (d : Dict String Value) (target operator value : Option Value)
      → Gives (constraint_of_parts s d target operator value)
  unfolding constraint_of_parts
  constraint_of_parts-Gives d none operator value = tt
  constraint_of_parts-Gives d (some target) none value = tt
  constraint_of_parts-Gives d (some target) (some operator) none = tt
  constraint_of_parts-Gives d (some target) (some operator) (some value) = constraint_made-Gives _

store_fact-Gives :
    (d : Dict String Value) (relation : String) (subject object : Option Value) (s : State)
    → IsFresh s
    → Gives (store_fact d relation subject object s)
unfolding store_fact
store_fact-Gives d relation none object s h = tt
store_fact-Gives d relation (some subject) none s h = tt
store_fact-Gives d relation (some subject) (some object) s h =
    claim_stored-Gives s h (str subject) relation (str object) _

fact_of_relation-Gives :
    (s : State)
    → IsFresh s
    → (d : Dict String Value) (r : Option Value) → Gives (fact_of_relation s d r)
unfolding fact_of_relation
fact_of_relation-Gives s h d none = tt
fact_of_relation-Gives s h d (some relation) =
    and_then-Gives (ensure_schema s (str relation))
      (store_fact d (str relation) (get d "subject") (get d "object"))
      (ensure_schema-Gives s h (str relation))
      (store_fact-Gives d (str relation) (get d "subject") (get d "object"))

pub add_fact-Gives : (s : State) (x : Item) → IsFresh s → Gives (add_fact s x)
unfolding add_fact
add_fact-Gives s none h = tt
add_fact-Gives s (some d) h = fact_of_relation-Gives s h d (get d "relation")

add_constraint_item-Gives : (s : State) (x : Item) → IsFresh s → Gives (add_constraint_item s x)
unfolding add_constraint_item
add_constraint_item-Gives s none h = tt
add_constraint_item-Gives s (some d) h = constraint_of_parts-Gives s h d _ _ _

add_facts-Gives : (x : Field (List Item)) (s : State) → IsFresh s → Gives (add_facts x s)
unfolding add_facts
add_facts-Gives absent s h = h
add_facts-Gives malformed s h = tt
add_facts-Gives (present items) s h = each_item-Gives add_fact add_fact-Gives items s h

add_constraints-Gives :
    (x : Field (List Item)) (s : State) → IsFresh s → Gives (add_constraints x s)
unfolding add_constraints
add_constraints-Gives absent s h = h
add_constraints-Gives malformed s h = tt
add_constraints-Gives (present items) s h =
    each_item-Gives add_constraint_item add_constraint_item-Gives items s h

add_case_goal-Gives :
    (x : Field (Dict String Value)) (s : State) → IsFresh s → Gives (add_case_goal x s)
unfolding add_case_goal
add_case_goal-Gives absent s h = h
add_case_goal-Gives malformed s h = tt
add_case_goal-Gives (present d) s h = goal_of_parts-Gives s h _ _ _

state_from_case-Gives : (c : Option Case) → Gives (state_from_case c)
unfolding state_from_case run
state_from_case-Gives none = tt
state_from_case-Gives (some c) =
    and_then-Gives (add_facts c.facts (add_relation_schema empty_state is_a_schema))
      (λ s. and_then (add_constraints c.constraints s) (add_case_goal c.goal))
      (add_facts-Gives c.facts _ (called start (schema is_a_schema)))
      (λ s h.
        and_then-Gives (add_constraints c.constraints s) (add_case_goal c.goal)
          (add_constraints-Gives c.constraints s h) (add_case_goal-Gives c.goal))

-- A case that is accepted gives a state that calls of the memory's methods lead to from the empty
-- one, and it is well-formed.
pub state_from_case-IsWellFormed :
    (c : Option Case) (s : State)
    → state_from_case c ≡ built s
    → Reach empty_state s × IsWellFormed s
state_from_case-IsWellFormed c s e =
    let r : Reach empty_state s = subst Gives e (state_from_case-Gives c) in
    (r, Reach-IsWellFormed r)
