-- ===== src/Engine/Bound.antt =====
-- The constraints that `state_from_case` (src/vcse/engine.py) adds.
use vcse.Prelude.{
  string_eq, ◌≡◌, refl, sym, ap, ◌∙◌, Option, none, some, List, [], ◌∷◌, ◌++◌, append-nil,
  append_assoc,
}
use vcse.Dict.{get}
use vcse.Value.{Value, str}
use vcse.Memory.Model.{State, Constraint, Made, made, value_error, make_constraint}
use vcse.Memory.{add_constraint}
use vcse.Transition.Args.{arg_str_or}
use vcse.Engine.{
  Field, absent, malformed, present, Item, Built, built, invalid_case, raised, each_item,
  constraint_made, constraint_of_parts, add_constraint_item, add_constraints,
}
use vcse.Engine.Told.{Holds, and_then-Holds, IsMadeOf, AreMadeOf}

-- The constraints are added, and what is found and the goals stay.
pub record IsBound (s : State) (made_of : List Constraint → Type 0) (t : State) : Type 0 where
  pub added : List Constraint
  pub of_items : made_of added
  pub behind : t.constraints ≡ s.constraints ++ added
  pub claims : t.claims ≡ s.claims
  pub claim_index : t.claim_index ≡ s.claim_index
  pub goals : t.goals ≡ s.goals

constraint_made-IsBound :
    (s : State) (m : Made)
    → Holds
        (IsBound s (λ cs. (c : Constraint) × (m ≡ made c) × (cs ≡ c ∷ [])))
        (constraint_made s m)
unfolding add_constraint
constraint_made-IsBound s (value_error reason) = tt
constraint_made-IsBound s (made c) = record {
  added = c ∷ [];
  of_items = (c, refl, refl);
  behind = refl;
  claims = refl;
  claim_index = refl;
  goals = refl;
}

pub Holds-map :
    (P Q : State → Type 0) (b : Built) → ((t : State) → P t → Q t) → Holds P b → Holds Q b
Holds-map P Q (built t) f h = f t h
Holds-map P Q (invalid_case reason) f h = tt
Holds-map P Q raised f h = tt

-- One constraint, made of an item
abbrev IsOne : Item → List Constraint → Type 0
IsOne x cs = (c : Constraint) × IsMadeOf x c × (cs ≡ c ∷ [])

add_constraint_item-IsBound :
    (s : State) (x : Item) → Holds (IsBound s (IsOne x)) (add_constraint_item s x)
unfolding add_constraint_item constraint_of_parts
add_constraint_item-IsBound s none = tt
add_constraint_item-IsBound s (some d) =
    by_parts (get d "target") (get d "operator") (get d "value") refl refl refl
  where
    by_parts :
        (target operator value : Option Value)
        → get d "target" ≡ target
        → get d "operator" ≡ operator
        → get d "value" ≡ value
        → Holds (IsBound s (IsOne (some d))) (constraint_of_parts s d target operator value)
    by_parts none operator value p q r = tt
    by_parts (some target) none value p q r = tt
    by_parts (some target) (some operator) none p q r = tt
    by_parts (some target) (some operator) (some value) p q r =
        let m =
          make_constraint (arg_str_or d "kind" "numeric") (str target) (str operator) value
            (arg_str_or d "description" "") in
        Holds-map (IsBound s (λ cs. (c : Constraint) × (m ≡ made c) × (cs ≡ c ∷ [])))
          (IsBound s (IsOne (some d))) (constraint_made s m)
          (λ t h.
            let (c, e, one) = h.of_items in
            record {
              added = h.added;
              of_items = (c, (target, operator, value, p, q, r, e), one);
              behind = h.behind;
              claims = h.claims;
              claim_index = h.claim_index;
              goals = h.goals;
            })
          (constraint_made-IsBound s m)

each_constraint-IsBound :
    (xs : List Item) (s : State)
    → Holds (IsBound s (AreMadeOf xs)) (each_item add_constraint_item xs s)
unfolding each_item
each_constraint-IsBound [] s = record {
  added = [];
  of_items = tt;
  behind = sym (append-nil s.constraints);
  claims = refl;
  claim_index = refl;
  goals = refl;
}
each_constraint-IsBound (x ∷ xs) s =
    and_then-Holds (IsBound s (IsOne x)) (IsBound s (AreMadeOf (x ∷ xs))) (add_constraint_item s x)
      (each_item add_constraint_item xs) (add_constraint_item-IsBound s x)
      (λ u k.
        Holds-map (IsBound u (AreMadeOf xs)) (IsBound s (AreMadeOf (x ∷ xs)))
          (each_item add_constraint_item xs u) (λ t l. later u t k l)
          (each_constraint-IsBound xs u))
  where
    later :
        (u t : State)
        → IsBound s (IsOne x) u
        → IsBound u (AreMadeOf xs) t
        → IsBound s (AreMadeOf (x ∷ xs)) t
    later u t k l =
        let (c, from_item, one) = k.of_items in
        record {
          added = c ∷ l.added;
          of_items = (from_item, l.of_items);
          behind =
              l.behind
              ∙ ap (λ cs. cs ++ l.added) (k.behind ∙ ap (λ cs. s.constraints ++ cs) one)
              ∙ append_assoc s.constraints (c ∷ []) l.added;
          claims = l.claims ∙ k.claims;
          claim_index = l.claim_index ∙ k.claim_index;
          goals = l.goals ∙ k.goals;
        }

-- The items of a field that may be absent
abbrev pub items_of : Field (List Item) → List Item
items_of (present xs) = xs
items_of _ = []

pub add_constraints-IsBound :
    (x : Field (List Item)) (s : State)
    → Holds (IsBound s (AreMadeOf (items_of x))) (add_constraints x s)
unfolding add_constraints
add_constraints-IsBound absent s = record {
  added = [];
  of_items = tt;
  behind = sym (append-nil s.constraints);
  claims = refl;
  claim_index = refl;
  goals = refl;
}
add_constraints-IsBound malformed s = tt
add_constraints-IsBound (present xs) s = each_constraint-IsBound xs s
