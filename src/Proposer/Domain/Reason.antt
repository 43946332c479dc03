-- ===== src/Proposer/Domain/Reason.antt =====
-- The reasons of the proposals of src/vcse/proposer/domain_specific.py.
use vcse.Prelude.{
  ℕ, suc, String, Bool, true, false, string_eq, ◌≡◌, Option, some, List, ◌∷◌, if◌then◌else◌,
}
use vcse.Dict.{get, has}
use vcse.Number.{Number, compare_numeric}
use vcse.Value.{Value, num, as_number}
use vcse.Memory.Model.{State, Claim, Constraint}
use vcse.Memory.{constraint_id_for_index}
use vcse.Verifier.Contradictions.{is_final}
use vcse.Transition.Args.{Transition}
use vcse.Proposer.Rules.Justified.{IsStored, IsAbsent}
use vcse.Proposer.Domain.{bind_number, support_of, conflict_of, is_true_claim, conclusion_of}

-- The constraint stands in a list at the index `j`, where the list is numbered from `i` on.
pub data IsNumbered (j : ℕ) (c : Constraint) : (i : ℕ) → List Constraint → Type 0 where
  first : (i : ℕ) (cs : List Constraint) → i ≡ j → IsNumbered j c i (c ∷ cs)
  later :
      (i : ℕ) (d : Constraint) (cs : List Constraint)
      → IsNumbered j c (suc i) cs
      → IsNumbered j c i (d ∷ cs)

-- A numeric constraint of the state whose target is bound, with its id and the two numbers
pub record IsChecked (s : State) (id : String) (c : Constraint) (bound : Value)
    (left right : Number) : Type 0 where
  pub position : ℕ
  pub stands : IsNumbered position c 0 s.constraints
  pub identified : id ≡ constraint_id_for_index position
  pub numeric : c.kind ≡ "numeric"
  pub bound_to : get s.symbol_bindings c.target ≡ some bound
  pub left_number : as_number bound ≡ some left
  pub right_number : as_number c.value ≡ some right

-- A stored and final claim equates an unbound symbol with the number that its object is read as.
pub record IsEquated (float_of : String → Option Number) (s : State) (c : Claim) (n : Number)
    : Type 0 where
  pub stored : IsStored s c
  pub equates : c.relation ≡ "equals"
  pub final : is_final c.status ≡ true
  pub unbound : has s.symbol_bindings c.subject ≡ false
  pub read : float_of c.object ≡ some n

pub data HasReason (float_of : String → Option Number) (is_integer : Number → Bool)
    (int_text float_text : Number → String) (s : State) (t : Transition) : Type 0 where
  by_number :
      (c : Claim) (n : Number)
      → IsEquated float_of s c n
      → t ≡ bind_number c (num n (if is_integer n then int_text n else float_text n))
      → HasReason float_of is_integer int_text float_text s t
  by_satisfaction :
      (id : String) (c : Constraint) (bound : Value) (left right : Number)
      → IsChecked s id c bound left right
      → compare_numeric left c.operator right ≡ true
      → t ≡ support_of id c bound
      → HasReason float_of is_integer int_text float_text s t
  by_violation :
      (id : String) (c : Constraint) (bound : Value) (left right : Number)
      → IsChecked s id c bound left right
      → compare_numeric left c.operator right ≡ false
      → t ≡ conflict_of id c bound
      → HasReason float_of is_integer int_text float_text s t
  by_implication :
      (premise implication : Claim)
      → IsStored s premise
      → IsStored s implication
      → is_true_claim premise ≡ true
      → premise.subject ≡ implication.subject
      → implication.relation ≡ "implies"
      → IsAbsent s implication.object "is_true" "true"
      → t ≡ conclusion_of premise implication
      → HasReason float_of is_integer int_text float_text s t
