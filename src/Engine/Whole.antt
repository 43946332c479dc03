-- ===== src/Engine/Whole.antt =====
-- What the state of a case of `state_from_case` (src/vcse/engine.py) holds, whatever the case.
use vcse.Prelude.{
  string_eq, String, ◌≡◌, refl, sym, ap, ◌∙◌, subst, Option, none, some, List, [], ◌∷◌, ◌++◌, All,
}
use vcse.Dict.{Dict, get}
use vcse.Value.{Value, str}
use vcse.Text.Norm.{norm}
use vcse.Text.Decimal.{show}
use vcse.Memory.Keys.{concat}
use vcse.Memory.Model.{State, Goal, empty_state}
use vcse.Memory.{add_relation_schema, add_goal}
use vcse.Memory.Claims.{IsWellFormed}
use vcse.Memory.Calls.{start, called, schema, run}
use vcse.Engine.{
  Field, absent, malformed, present, Item, Case, built, and_then, goal_of_parts, add_facts,
  add_constraints, add_case_goal, is_a_schema, state_from_case,
}
use vcse.Engine.Reached.{IsFresh, state_from_case-IsWellFormed}
use vcse.Engine.Bound.{IsBound, Holds-map, items_of, add_constraints-IsBound}
use vcse.Engine.Told.{
  Holds, and_then-Holds, HasTriple, IsStoredFact, AreMadeOf, Keeps-found, IsTold, each_fact-IsTold,
}

-- The goals are that of the case.
abbrev pub AreGoalsOf : Field (Dict String Value) → List Goal → Type 0
AreGoalsOf absent gs = gs ≡ []
AreGoalsOf malformed gs = ⊥
AreGoalsOf (present d) gs =
    (subject : Value) × (relation : Value) × (object : Value) × HasTriple d subject relation object
    × ((g : Goal) × (gs ≡ g ∷ [])
        × (g.subject ≡ norm (str subject))
        × (g.relation ≡ norm (str relation))
        × (g.object ≡ norm (str object)))

-- Each fact of the case is found, the constraints are those of its items in their order, and the
-- goal is its goal.
pub record IsCaseState (c : Case) (s : State) : Type 0 where
  pub facts : All (IsStoredFact s) (items_of c.facts)
  pub constraints : AreMadeOf (items_of c.constraints) s.constraints
  pub goals : AreGoalsOf c.goal s.goals

add_facts-IsTold :
    (x : Field (List Item)) (s : State)
    → IsFresh s
    → Holds (IsTold s (λ t. All (IsStoredFact t) (items_of x))) (add_facts x s)
unfolding add_facts
add_facts-IsTold absent s h = record {
  told_there = tt;
  keeps = λ a b c k. k;
  constraints = refl;
  goals = refl;
}
add_facts-IsTold malformed s h = tt
add_facts-IsTold (present xs) s h = each_fact-IsTold xs s h

-- The goal is added, and all else stays.
record IsAimed (x : Field (Dict String Value)) (s t : State) : Type 0 where
  pub aims : s.goals ≡ [] → AreGoalsOf x t.goals
  pub constraints : t.constraints ≡ s.constraints
  pub claims : t.claims ≡ s.claims
  pub claim_index : t.claim_index ≡ s.claim_index

add_case_goal-IsAimed :
    (x : Field (Dict String Value)) (s : State) → Holds (IsAimed x s) (add_case_goal x s)
unfolding add_case_goal goal_of_parts add_goal
add_case_goal-IsAimed absent s = record {
  aims = λ e. e;
  constraints = refl;
  claims = refl;
  claim_index = refl;
}
add_case_goal-IsAimed malformed s = tt
add_case_goal-IsAimed (present d) s =
    by_parts (get d "subject") (get d "relation") (get d "object") refl refl refl
  where
    by_parts :
        (subject relation object : Option Value)
        → get d "subject" ≡ subject
        → get d "relation" ≡ relation
        → get d "object" ≡ object
        → Holds (IsAimed (present d) s) (goal_of_parts s subject relation object)
    by_parts none relation object p q r = tt
    by_parts (some subject) none object p q r = tt
    by_parts (some subject) (some relation) none p q r = tt
    by_parts (some subject) (some relation) (some object) p q r =
        let g : Goal = record {
          id = concat ("goal:" ∷ show s.next_goal_num ∷ []);
          subject = norm (str subject);
          relation = norm (str relation);
          object = norm (str object);
        } in
        record {
          aims = λ e. (
            subject,
            relation,
            object,
            record { has_subject = p; has_relation = q; has_object = r },
            (g, ap (λ gs. gs ++ g ∷ []) e, refl, refl, refl),
          );
          constraints = refl;
          claims = refl;
          claim_index = refl;
        }

All-map : (P Q : Item → Type 0) (xs : List Item) → ((x : Item) → P x → Q x) → All P xs → All Q xs
All-map P Q [] f h = tt
All-map P Q (x ∷ xs) f (p, h) = (f x p, All-map P Q xs f h)

still_stored :
    (s t : State)
    → t.claims ≡ s.claims
    → t.claim_index ≡ s.claim_index
    → (x : Item) → IsStoredFact s x
    → IsStoredFact t x
still_stored s t e f none h = h
still_stored s t e f (some d) (a, b, c, triple, found) =
    (a, b, c, triple, Keeps-found s t e f _ _ _ found)

case-IsCaseState : (c : Case) → Holds (IsCaseState c) (state_from_case (some c))
unfolding state_from_case run add_relation_schema
case-IsCaseState c =
    let s0 = add_relation_schema empty_state is_a_schema in
    and_then-Holds (IsTold s0 (λ t. All (IsStoredFact t) (items_of c.facts))) (IsCaseState c)
      (add_facts c.facts s0)
      (λ s. and_then (add_constraints c.constraints s) (add_case_goal c.goal))
      (add_facts-IsTold c.facts s0 (called start (schema is_a_schema)))
      (λ s told.
        and_then-Holds (IsBound s (AreMadeOf (items_of c.constraints))) (IsCaseState c)
          (add_constraints c.constraints s) (add_case_goal c.goal)
          (add_constraints-IsBound c.constraints s)
          (λ u bound.
            Holds-map (IsAimed c.goal u) (IsCaseState c) (add_case_goal c.goal u)
              (λ t aimed. whole s u t told bound aimed) (add_case_goal-IsAimed c.goal u)))
  where
    whole :
        (s u t : State)
        → IsTold
            (add_relation_schema empty_state is_a_schema)
            (λ t. All (IsStoredFact t) (items_of c.facts))
            s
        → IsBound s (AreMadeOf (items_of c.constraints)) u
        → IsAimed c.goal u t
        → IsCaseState c t
    whole s u t told bound aimed = record {
      facts =
          All-map (IsStoredFact s) (IsStoredFact t) (items_of c.facts)
            (still_stored s t (aimed.claims ∙ bound.claims) (aimed.claim_index ∙ bound.claim_index))
            told.told_there;
      constraints =
          subst (AreMadeOf (items_of c.constraints))
            (sym (aimed.constraints ∙ bound.behind ∙ ap (λ cs. cs ++ bound.added) told.constraints))
            bound.of_items;
      goals = aimed.aims (bound.goals ∙ told.goals);
    }

-- The state of an accepted case is well-formed, every fact of the case is found in it under the
-- fact's subject, relation and object, its constraints are those made of the case's items, in their
-- order, and its goals are the case's goal, normalised, or none.
pub state_from_case-IsCaseState :
    (c : Case) (s : State) → state_from_case (some c) ≡ built s → IsWellFormed s × IsCaseState c s
state_from_case-IsCaseState c s e = (
  (state_from_case-IsWellFormed (some c) s e).1,
  subst (Holds (IsCaseState c)) e (case-IsCaseState c),
)
