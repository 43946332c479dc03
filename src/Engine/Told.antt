-- ===== src/Engine/Told.antt =====
-- What `state_from_case` (src/vcse/engine.py) puts into a state: what the case tells, and no more.
use vcse.Prelude.{
  string_eq, String, true, ◌≡◌, refl, ap, ◌∙◌, Option, none, some, List, [], ◌∷◌, is_some,
  Bool-cases, inl, inr, All,
}
use vcse.Dict.{Dict, get}
use vcse.Value.{Value, TruthStatus, str}
use vcse.Memory.Keys.{canonical_claim_key, key_eq}
use vcse.Memory.Model.{State, Constraint, made, make_constraint, RelationSchema}
use vcse.Memory.{add_relation_schema, get_relation_schema, find_claim}
use vcse.Memory.AddClaim.{find_claim-add_claim, find_claim_kept, add_claim_rest}
use vcse.Memory.Calls.{Reach-IsWellFormed}
use vcse.Transition.Args.{arg_str_or, parse_status}
use vcse.Engine.{
  Item, Built, built, invalid_case, raised, and_then, each_item, schema_added, ensure_schema,
  claim_stored, store_fact, fact_of_relation, add_fact,
}
use vcse.Engine.Reached.{IsFresh, Gives, add_fact-Gives, ensure_schema-Gives}

abbrev pub Holds : (State → Type 0) → Built → Type 0
Holds P (built s) = P s
Holds P _ = Unit {0}

pub and_then-Holds :
    (P Q : State → Type 0) (b : Built) (next : State → Built)
    → Holds P b
    → ((s : State) → P s → Holds Q (next s))
    → Holds Q (and_then b next)
and_then-Holds P Q (built s) next h go_on = go_on s h
and_then-Holds P Q (invalid_case reason) next h go_on = tt
and_then-Holds P Q raised next h go_on = tt

pub Holds-both :
    (P Q : State → Type 0) (b : Built) → Holds P b → Holds Q b → Holds (λ s. P s × Q s) b
Holds-both P Q (built s) h k = (h, k)
Holds-both P Q (invalid_case reason) h k = tt
Holds-both P Q raised h k = tt

-- The parts of a dict that a fact or a goal needs
pub record HasTriple (d : Dict String Value) (subject relation object : Value) : Type 0 where
  pub has_subject : get d "subject" ≡ some subject
  pub has_relation : get d "relation" ≡ some relation
  pub has_object : get d "object" ≡ some object

-- A claim is found under the subject, the relation and the object of the fact.
abbrev pub IsStoredFact : State → Item → Type 0
IsStoredFact s none = ⊥
IsStoredFact s (some d) =
    (subject : Value) × (relation : Value) × (object : Value) × HasTriple d subject relation object
    × (is_some (find_claim s (str subject) (str relation) (str object) []) ≡ true)

-- The constraint is made of the item.
abbrev pub IsMadeOf : Item → Constraint → Type 0
IsMadeOf none c = ⊥
IsMadeOf (some d) c =
    (target : Value) × (operator : Value) × (value : Value) × (get d "target" ≡ some target)
    × (get d "operator" ≡ some operator)
    × (get d "value" ≡ some value)
    × (make_constraint (arg_str_or d "kind" "numeric") (str target) (str operator) value
          (arg_str_or d "description" "")
        ≡ made c)

abbrev pub AreMadeOf : List Item → List Constraint → Type 0
AreMadeOf [] [] = Unit {0}
AreMadeOf [] (c ∷ cs) = ⊥
AreMadeOf (x ∷ xs) [] = ⊥
AreMadeOf (x ∷ xs) (c ∷ cs) = IsMadeOf x c × AreMadeOf xs cs

-- Claims, constraints and goals stay.
pub record Same (s t : State) : Type 0 where
  pub claims : t.claims ≡ s.claims
  pub claim_index : t.claim_index ≡ s.claim_index
  pub constraints : t.constraints ≡ s.constraints
  pub goals : t.goals ≡ s.goals

-- Every claim that is found in `s` is found in `t`.
abbrev pub Keeps : State → State → Type 0
Keeps s t =
    (a b c : String)
    → is_some (find_claim s a b c []) ≡ true
    → is_some (find_claim t a b c []) ≡ true

pub Keeps-found : (s t : State) → t.claims ≡ s.claims → t.claim_index ≡ s.claim_index → Keeps s t
unfolding find_claim
Keeps-found s t e f a b c h =
    let key = canonical_claim_key a b c [] in
    ap (λ index. is_some (elim (get index key) [ none ↦ none | some id ↦ get t.claims id ])) f
    ∙ ap
        (λ claims. is_some (elim (get s.claim_index key) [ none ↦ none | some id ↦ get claims id ]))
        e
    ∙ h

-- What a fact, or all facts, do to a state
pub record IsTold (s : State) (told : State → Type 0) (t : State) : Type 0 where
  pub told_there : told t
  pub keeps : Keeps s t
  pub constraints : t.constraints ≡ s.constraints
  pub goals : t.goals ≡ s.goals

ensure_schema-Same : (s : State) (relation : String) → Holds (Same s) (ensure_schema s relation)
unfolding ensure_schema add_relation_schema
ensure_schema-Same s relation = elim (Bool-cases (is_some (get_relation_schema s relation))) [
  | inl old ↦
      rw old (record { claims = refl; claim_index = refl; constraints = refl; goals = refl })
  | inr new ↦ rw new (added _)
]
  where
    added : (r : Option RelationSchema) → Holds (Same s) (schema_added s r)
    added none = tt
    added (some r) = record { claims = refl; claim_index = refl; constraints = refl; goals = refl }

module _ (s u : State) (same : Same s u) (fresh : IsFresh u) (d : Dict String Value)
    (relation : Value) (at : get d "relation" ≡ some relation) where
  store_fact-IsTold :
      (subject object : Option Value)
      → get d "subject" ≡ subject
      → get d "object" ≡ object
      → Holds
          (IsTold s (λ t. IsStoredFact t (some d)))
          (store_fact d (str relation) subject object u)
  unfolding store_fact
  store_fact-IsTold none object p q = tt
  store_fact-IsTold (some subject) none p q = tt
  store_fact-IsTold (some subject) (some object) p q =
      by_status (parse_status (arg_str_or d "status" "ASSERTED"))
    where
      by_status :
          (o : Option TruthStatus)
          → Holds
              (IsTold s (λ t. IsStoredFact t (some d)))
              (claim_stored u (str subject) (str relation) (str object) o)
      by_status none = tt
      by_status (some st) =
          let w = Reach-IsWellFormed fresh in
          let (c, found, named, matches) =
            find_claim-add_claim u w (str subject) (str relation) (str object) st [] [] "memory" in
          let rest =
            add_claim_rest u w (str subject) (str relation) (str object) st [] [] "memory" in
          record {
            told_there = (
              subject,
              relation,
              object,
              record { has_subject = p; has_relation = at; has_object = q },
              ap is_some found,
            );
            keeps = λ a b e h.
                find_claim_kept u w (str subject) (str relation) (str object) st [] [] "memory" a b
                  e [] (Keeps-found s u same.claims same.claim_index a b e h);
            constraints = rest.0 ∙ same.constraints;
            goals = rest.1 ∙ same.goals;
          }

pub IsFresh-held : (b : Built) → Gives b → Holds IsFresh b
IsFresh-held (built t) k = k
IsFresh-held (invalid_case reason) k = tt
IsFresh-held raised k = tt

add_fact-IsTold :
    (s : State) (x : Item) → IsFresh s → Holds (IsTold s (λ t. IsStoredFact t x)) (add_fact s x)
unfolding add_fact fact_of_relation
add_fact-IsTold s none h = tt
add_fact-IsTold s (some d) h = by_relation (get d "relation") refl
  where
    by_relation :
        (o : Option Value)
        → get d "relation" ≡ o
        → Holds (IsTold s (λ t. IsStoredFact t (some d))) (fact_of_relation s d o)
    by_relation none at = tt
    by_relation (some relation) at =
        and_then-Holds (λ u. Same s u × IsFresh u) (IsTold s (λ t. IsStoredFact t (some d)))
          (ensure_schema s (str relation))
          (store_fact d (str relation) (get d "subject") (get d "object"))
          (Holds-both (Same s) IsFresh (ensure_schema s (str relation))
            (ensure_schema-Same s (str relation))
            (IsFresh-held _ (ensure_schema-Gives s h (str relation))))
          (λ u k.
            store_fact-IsTold s u k.0 k.1 d relation at (get d "subject") (get d "object") refl
              refl)

-- The loop over the facts
pub each_fact-IsTold :
    (xs : List Item) (s : State)
    → IsFresh s
    → Holds (IsTold s (λ t. All (IsStoredFact t) xs)) (each_item add_fact xs s)
unfolding each_item
each_fact-IsTold [] s h = record {
  told_there = tt;
  keeps = λ a b c k. k;
  constraints = refl;
  goals = refl;
}
each_fact-IsTold (x ∷ xs) s h =
    and_then-Holds (λ u. IsTold s (λ t. IsStoredFact t x) u × IsFresh u)
      (IsTold s (λ t. All (IsStoredFact t) (x ∷ xs))) (add_fact s x) (each_item add_fact xs)
      (Holds-both (IsTold s (λ t. IsStoredFact t x)) IsFresh (add_fact s x) (add_fact-IsTold s x h)
        (IsFresh-held _ (add_fact-Gives s x h)))
      (λ u k. later u k.0 (each_item add_fact xs u) (each_fact-IsTold xs u k.1))
  where
    kept : (y : Item) (u t : State) → Keeps u t → IsStoredFact u y → IsStoredFact t y
    kept none u t keeps k = k
    kept (some d) u t keeps (a, b, c, triple, found) = (a, b, c, triple, keeps _ _ _ found)

    later :
        (u : State)
        → IsTold s (λ t. IsStoredFact t x) u
        → (b : Built) → Holds (IsTold u (λ t. All (IsStoredFact t) xs)) b
        → Holds (IsTold s (λ t. All (IsStoredFact t) (x ∷ xs))) b
    later u k (built t) l = record {
      told_there = (kept x u t l.keeps k.told_there, l.told_there);
      keeps = λ a b c found. l.keeps a b c (k.keeps a b c found);
      constraints = l.constraints ∙ k.constraints;
      goals = l.goals ∙ k.goals;
    }
    later u k (invalid_case reason) l = tt
    later u k raised l = tt
