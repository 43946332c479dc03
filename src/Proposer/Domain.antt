-- ===== src/Proposer/Domain.antt =====
-- `DomainSpecificProposer` of src/vcse/proposer/domain_specific.py. Python's `float(text)`, which
-- gives none where it raises a ValueError, and the printing of numbers are parameters.
pub mod Reason
pub mod Correct
use vcse.Prelude.{
  ℕ, zero, suc, String, Bool, true, false, not, ◌&&◌, ◌||◌, ◌==◌, string_eq, Option, none, some,
  List, [], ◌∷◌, ◌++◌, take, is_some, if◌then◌else◌,
}
use vcse.Dict.{Dict, get, set, has, values}
use vcse.Number.{Number, compare_numeric}
use vcse.Value.{Value, num, text, status, texts, str, as_number, supported}
use vcse.Memory.Keys.{concat}
use vcse.Memory.Model.{State, Claim, Constraint, Goal, claim_text, operator_text}
use vcse.Memory.{find_claim, constraint_id_for_index}
use vcse.Verifier.Contradictions.{is_final}
use vcse.Transition.Args.{Transition}
use vcse.Proposer.Rules.{pair_value}

-- `_constraint_text`
unfoldable pub constraint_text : Constraint → String
constraint_text c = concat (c.target ∷ " " ∷ operator_text c.operator ∷ " " ∷ str c.value ∷ [])

abbrev pub bind_number : Claim → Value → Transition
bind_number c v = record {
  type = "BindSymbol";
  args = ("name", text c.subject) ∷ ("value", v) ∷ [];
  description = concat ("Bind numeric equality " ∷ claim_text c ∷ []);
  expected_effect = "Numeric symbol binding is stored";
  source = "domain_arithmetic";
}

abbrev pub support_of : String → Constraint → Value → Transition
support_of id c bound = record {
  type = "AddEvidence";
  args =
      ("target_id", text id)
      ∷ (
        "content",
        text (concat (c.target ∷ "=" ∷ str bound ∷ " satisfies " ∷ constraint_text c ∷ [])),
      )
      ∷ ("source", text "domain_arithmetic")
      ∷ [];
  description = concat ("Attach arithmetic support for " ∷ id ∷ []);
  expected_effect = "Constraint satisfaction evidence is stored";
  source = "domain_arithmetic";
}

abbrev pub symbol_list : String → Value
symbol_list target =
    texts (concat ("symbol:" ∷ target ∷ []) ∷ []) (concat ("['symbol:" ∷ target ∷ "']" ∷ []))

abbrev pub conflict_of : String → Constraint → Value → Transition
conflict_of id c bound = record {
  type = "RecordContradiction";
  args =
      ("element_id", text id)
      ∷ (
        "reason",
        text (concat (c.target ∷ "=" ∷ str bound ∷ " violates " ∷ constraint_text c ∷ [])),
      )
      ∷ ("related_element_ids", symbol_list c.target)
      ∷ ("severity", text "unsat")
      ∷ [];
  description = concat ("Record arithmetic conflict for " ∷ id ∷ []);
  expected_effect = "Constraint conflict is indexed";
  source = "domain_arithmetic";
}

-- The tests and the two appends of the second loop of `_propose_arithmetic`
abbrev pub check_numbers :
    String → Constraint → Value → Option Number → Option Number → List Transition
check_numbers id c bound none right = []
check_numbers id c bound (some left) none = []
check_numbers id c bound (some left) (some right) =
    if compare_numeric left c.operator right
    then support_of id c bound ∷ []
    else conflict_of id c bound ∷ []

abbrev pub check_bound : String → Constraint → Option Value → List Transition
check_bound id c none = []
check_bound id c (some bound) = check_numbers id c bound (as_number bound) (as_number c.value)

unfoldable pub check_constraints : State → ℕ → List Constraint → List Transition
check_constraints s index [] = []
check_constraints s index (c ∷ cs) =
    (if c.kind == "numeric"
      then check_bound (constraint_id_for_index index) c (get s.symbol_bindings c.target)
      else [])
    ++ check_constraints s (suc index) cs

-- The test of `true_claims`
abbrev pub is_true_claim : Claim → Bool
is_true_claim c = c.relation == "is_true" && is_final c.status

unfoldable pub collect_true : Dict String Claim → List Claim → Dict String Claim
collect_true d [] = d
collect_true d (c ∷ cs) = collect_true (if is_true_claim c then set d c.subject c else d) cs

abbrev pub conclusion_of : Claim → Claim → Transition
conclusion_of premise implication = record {
  type = "AddClaim";
  args =
      ("subject", text implication.object)
      ∷ ("relation", text "is_true")
      ∷ ("object", text "true")
      ∷ ("status", status supported)
      ∷ ("dependencies", pair_value premise.id implication.id)
      ∷ [];
  description = concat ("Apply implication " ∷ claim_text implication ∷ []);
  expected_effect = "Adds supported symbolic conclusion";
  source = "domain_logic";
}

abbrev pub conclude : State → Claim → Option Claim → List Transition
conclude s implication none = []
conclude s implication (some premise) =
    if is_some (find_claim s implication.object "is_true" "true" [])
    then []
    else conclusion_of premise implication ∷ []

unfoldable pub apply_implications : State → Dict String Claim → List Claim → List Transition
apply_implications s facts [] = []
apply_implications s facts (c ∷ cs) =
    (if c.relation == "implies" then conclude s c (get facts c.subject) else [])
    ++ apply_implications s facts cs

-- `_propose_symbolic_logic`
unfoldable pub propose_symbolic_logic : State → List Transition
unfolding apply_implications collect_true
propose_symbolic_logic s =
    apply_implications s (collect_true [] (values s.claims)) (values s.claims)

-- `propose_planning`
abbrev pub propose_planning : State → Option Goal → List Transition
propose_planning s goal = []

module _ (float_of : String → Option Number) (is_integer : Number → Bool)
    (int_text float_text : Number → String) where
  -- `_parse_number`
  unfoldable pub parse_number : String → Option Value
  parse_number value = elim (float_of value) [
    | none ↦ none
    | some n ↦ some (num n (if is_integer n then int_text n else float_text n))
  ]

  abbrev pub bind_unbound : State → Claim → Option Value → List Transition
  bind_unbound s c none = []
  bind_unbound s c (some v) = if has s.symbol_bindings c.subject then [] else bind_number c v ∷ []

  -- The first loop of `_propose_arithmetic`
  unfoldable pub bind_equalities : State → List Claim → List Transition
  bind_equalities s [] = []
  bind_equalities s (c ∷ cs) =
      (if c.relation == "equals" && is_final c.status
        then bind_unbound s c (parse_number c.object)
        else [])
      ++ bind_equalities s cs

  -- `_propose_arithmetic`
  unfoldable pub propose_arithmetic : State → List Transition
  unfolding bind_equalities check_constraints
  propose_arithmetic s = bind_equalities s (values s.claims) ++ check_constraints s 0 s.constraints

  -- `propose`
  unfoldable pub propose_domain : ℕ → State → Option Goal → List Transition
  unfolding propose_arithmetic propose_symbolic_logic
  propose_domain limit s goal =
      take limit (propose_arithmetic s ++ (propose_symbolic_logic s ++ propose_planning s goal))
