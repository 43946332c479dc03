-- ===== src/Memory/Model.antt =====
-- src/vcse/memory/{world_state,relations,constraints}.py: the records of the world state.
use vcse.Prelude.{
  ℕ, String, Bool, ◌==◌, string_eq, Option, none, some, List, [], ◌∷◌, if◌then◌else◌,
}
use vcse.Dict.{Dict}
use vcse.Value.{Value, TruthStatus}
use vcse.Number.{Operator, gt, ge, lt_op, le_op, eq_op, ne_op}
use vcse.Text.Norm.{strip, is_blank}
use vcse.Memory.Keys.{Key, concat}

pub record Claim : Type 0 where
  pub id : String
  pub subject : String
  pub relation : String
  pub object : String
  pub status : TruthStatus
  pub qualifiers : Dict String String
  pub dependencies : List String
  pub source : String

pub record Goal : Type 0 where
  pub id : String
  pub subject : String
  pub relation : String
  pub object : String

abbrev pub triple_text : String → String → String → String
triple_text s r o = concat (s ∷ " " ∷ r ∷ " " ∷ o ∷ [])

-- `Claim.text` and `Goal.text`
unfoldable pub claim_text : Claim → String
claim_text c = triple_text c.subject c.relation c.object

unfoldable pub goal_text : Goal → String
goal_text g = triple_text g.subject g.relation g.object

pub record Contradiction : Type 0 where
  pub id : String
  pub element_ids : List String
  pub reason : String
  pub severity : String

pub record RelationSchema : Type 0 where
  pub name : String
  pub symmetric : Bool
  pub transitive : Bool
  pub reflexive : Bool
  pub functional : Bool
  pub inverse : Option String

-- `RelationSchema.canonical_name`
unfoldable pub canonical_name : RelationSchema → String
unfolding strip
canonical_name schema = strip schema.name

-- `RelationSchema(...)`: `none` is the ValueError of `__post_init__`.
unfoldable pub make_schema :
    String → Bool → Bool → Bool → Bool → Option String → Option RelationSchema
unfolding strip
make_schema name symmetric transitive reflexive functional inverse =
    if is_blank (strip name)
    then none
    else some (record {
      name = name;
      symmetric = symmetric;
      transitive = transitive;
      reflexive = reflexive;
      functional = functional;
      inverse = inverse;
    })

pub record Constraint : Type 0 where
  pub kind : String
  pub target : String
  pub operator : Operator
  pub value : Value
  pub description : String

-- The members of VALID_OPERATORS and their spelling.
unfoldable pub parse_operator : String → Option Operator
parse_operator s =
    if s == ">"
    then some gt
    else if s == ">="
    then some ge
    else if s == "<"
    then some lt_op
    else if s == "<="
    then some le_op
    else if s == "=="
    then some eq_op
    else if s == "!="
    then some ne_op
    else none

unfoldable pub operator_text : Operator → String
operator_text gt = ">"
operator_text ge = ">="
operator_text lt_op = "<"
operator_text le_op = "<="
operator_text eq_op = "=="
operator_text ne_op = "!="

-- The outcome of `Constraint(...)`: a constraint, or the text of the ValueError.
pub data Made : Type 0 where
  made : Constraint → Made
  value_error : String → Made

with_operator : String → String → String → Value → String → Option Operator → Made
with_operator kind target operator value description none =
    value_error (concat ("Unsupported constraint operator: " ∷ operator ∷ []))
with_operator kind target operator value description (some op) = made (record {
  kind = kind;
  target = target;
  operator = op;
  value = value;
  description = description;
})

unfoldable pub make_constraint : String → String → String → Value → String → Made
unfolding strip parse_operator with_operator
make_constraint kind target operator value description =
    if is_blank (strip kind)
    then value_error "Constraint.kind must be non-empty"
    else if is_blank (strip target)
    then value_error "Constraint.target must be non-empty"
    else with_operator kind target operator value description (parse_operator operator)

pub record Evidence : Type 0 where
  pub content : String
  pub source : String

-- `WorldStateMemory`. Versions and counters only grow from 0 and 1.
pub record State : Type 0 where
  pub claims : Dict String Claim
  pub claim_index : Dict Key String
  pub relation_schemas : Dict String RelationSchema
  pub constraints : List Constraint
  pub symbol_bindings : Dict String Value
  pub evidence : Dict String (List Evidence)
  pub goals : List Goal
  pub contradictions : Dict String (List Contradiction)
  pub version : ℕ
  pub parent_version : Option ℕ
  pub next_claim_num : ℕ
  pub next_goal_num : ℕ
  pub next_contradiction_num : ℕ

-- `WorldStateMemory()`
abbrev pub empty_state : State
empty_state = record {
  claims = [];
  claim_index = [];
  relation_schemas = [];
  constraints = [];
  symbol_bindings = [];
  evidence = [];
  goals = [];
  contradictions = [];
  version = 0;
  parent_version = none;
  next_claim_num = 1;
  next_goal_num = 1;
  next_contradiction_num = 1;
}
