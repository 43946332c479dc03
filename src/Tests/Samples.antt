-- ===== src/Tests/Samples.antt =====
-- The worked example of the README of the repository: Socrates is a Man, Man is a Mortal.
use vcse.Prelude.{List, [], ◌∷◌, true, false, none}
use vcse.Number.{finite, gt, le_op}
use vcse.Value.{asserted, supported, num, text, status, texts}
use vcse.Memory.Model.{State, RelationSchema, Constraint, empty_state}
use vcse.Memory.Claims.{IsWellFormed}
use vcse.Memory.Calls.{
  Call, schema, claim, goal, constraint, bind, run, Reach, start, called, Reach-IsWellFormed,
}
use vcse.Transition.Args.{Transition}

abbrev pub is_a : RelationSchema
is_a = record {
  name = "is_a";
  symmetric = false;
  transitive = true;
  reflexive = false;
  functional = false;
  inverse = none;
}

abbrev pub run_all : State → List Call → State
run_all s [] = s
run_all s (c ∷ cs) = run_all (run s c) cs

abbrev pub facts : List Call
facts =
    schema is_a
    ∷ claim "Socrates" "is_a" "Man" asserted [] [] "memory"
    ∷ claim "Man" "is_a" "Mortal" asserted [] [] "memory"
    ∷ goal "Socrates" "is_a" "Mortal"
    ∷ []

-- The premises and the goal
abbrev pub premises_state : State
premises_state = run_all empty_state facts

abbrev pub infer : Transition
infer = record {
  type = "AddClaim";
  args =
      ("subject", text "Socrates")
      ∷ ("relation", text "is_a")
      ∷ ("object", text "Mortal")
      ∷ ("status", status supported)
      ∷ ("dependencies", texts ("claim:1" ∷ "claim:2" ∷ []) "['claim:1', 'claim:2']")
      ∷ [];
  description = "Infer Socrates is_a Mortal";
  expected_effect = "Adds transitive supported claim";
  source = "rule_based";
}

-- The state with the inferred claim
abbrev pub solved_state : State
solved_state =
    run premises_state
      (claim "Socrates" "is_a" "Mortal" supported [] ("claim:1" ∷ "claim:2" ∷ []) "rule_based")

abbrev pub above_three : Constraint
above_three = record {
  kind = "numeric";
  target = "x";
  operator = gt;
  value = num (finite 3 0 0) "3";
  description = "";
}

abbrev pub at_most_three : Constraint
at_most_three = record {
  kind = "numeric";
  target = "x";
  operator = le_op;
  value = num (finite 3 0 0) "3";
  description = "";
}

abbrev pub at_most_four : Constraint
at_most_four = record {
  kind = "numeric";
  target = "x";
  operator = le_op;
  value = num (finite 4 0 0) "4";
  description = "";
}

-- x > 3, x ≤ 4 and x = 3.5
abbrev pub bound_state : State
bound_state =
    run_all empty_state
      (constraint above_three ∷ constraint at_most_four ∷ bind "x" (num (finite 7 0 1) "3.5") ∷ [])

pub premises_Reach : Reach empty_state premises_state
premises_Reach = called (called (called (called start _) _) _) _

pub premises-IsWellFormed : IsWellFormed premises_state
premises-IsWellFormed = Reach-IsWellFormed premises_Reach

pub solved-IsWellFormed : IsWellFormed solved_state
solved-IsWellFormed = Reach-IsWellFormed (called premises_Reach _)
