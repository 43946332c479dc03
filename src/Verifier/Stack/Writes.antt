-- ===== src/Verifier/Stack/Writes.antt =====
-- What the verifier stack (src/vcse/verifier/stack.py) does to the state that it evaluates.
use vcse.Prelude.{
  ℕ, suc, String, Bool, true, false, ◌≡◌, refl, sym, append-nil, Option, none, some, List, [], ◌∷◌,
  ◌==◌, string_eq, if◌then◌else◌,
}
use vcse.Dict.{Dict, get, set}
use vcse.Memory.Keys.{concat}
use vcse.Memory.Model.{State, Constraint}
use vcse.Memory.Growth.{Grows, Grows-trans, append_all-Grows}
use vcse.Memory.{or_nil, record_contradiction, constraint_id_for_index}
use vcse.Memory.Claims.{IsWellFormed}
use vcse.Verifier.Base.{Reason, VerificationResult}
use vcse.Verifier.Constraints.{
  Verdict, pending, satisfied, violated, non_numeric, judge, proceed, verify_from, record_violation,
}
use vcse.Verifier.Contradictions.{
  Found, conflict, against_seen, equality_entries, equality_groups, detect_equality_conflicts,
  numeric_conflict_reason, found_conflict, against_rest, numeric_pairs, numeric_groups,
  detect_numeric_constraint_conflicts,
}
use vcse.Verifier.Constraints
use vcse.Verifier.Contradictions
use vcse.Verifier.Stack.{evaluate}

-- The states that recording contradictions makes of `s`
pub data Recorded (s : State) : State → Type 0 where
  untouched : Recorded s s
  recorded :
      {t : State}
      → Recorded s t
      → (element reason : String) (related : List String) (severity : String)
      → Recorded s (record_contradiction t element reason related severity).0

proceed-Recorded :
    (s0 s : State) (c : Constraint) (id : String) (reasons : List Reason) (affected : List String)
    (next : State → List Reason → List String → State × VerificationResult)
    → ((t : State) (rs : List Reason) (xs : List String)
        → Recorded s0 t
        → Recorded s0 (next t rs xs).0)
    → (v : Verdict) → Recorded s0 s
    → Recorded s0 (proceed s c id reasons affected next v).0
unfolding proceed record_violation
proceed-Recorded s0 s c id reasons affected next go (pending r) h = go s _ affected h
proceed-Recorded s0 s c id reasons affected next go satisfied h = go s reasons affected h
proceed-Recorded s0 s c id reasons affected next go (violated r) h =
    go _ _ _ (recorded h id r _ "unsat")
proceed-Recorded s0 s c id reasons affected next go non_numeric h = h

abbrev both : (subject prior value : String) → String
both subject prior value = concat (subject ∷ " equals both " ∷ prior ∷ " and " ∷ value ∷ [])

module _ (s0 : State) where
  verify_from-Recorded :
      (i : ℕ) (cs : List Constraint) (s : State) (reasons : List Reason) (affected : List String)
      → Recorded s0 s
      → Recorded s0 (verify_from i cs s reasons affected).0
  unfolding verify_from
  verify_from-Recorded i [] s reasons affected h = h
  verify_from-Recorded i (c ∷ cs) s reasons affected h =
      proceed-Recorded s0 s c (constraint_id_for_index i) reasons affected (verify_from (suc i) cs)
        (verify_from-Recorded (suc i) cs) (judge s c (constraint_id_for_index i)) h

  conflict-Recorded :
      (f : Found) (left right reason severity : String)
      → Recorded s0 f.state
      → Recorded s0 (conflict f left right reason severity).state
  unfolding conflict
  conflict-Recorded f left right reason severity h = recorded h left reason (right ∷ []) severity

  either-Recorded :
      (b : Bool) (f g : Found)
      → Recorded s0 f.state
      → Recorded s0 g.state
      → Recorded s0 (if b then f else g).state
  either-Recorded true f g h k = h
  either-Recorded false f g h k = k

  against_seen-Recorded :
      (f : Found) (subject id value : String) (seen : Dict String String)
      → Recorded s0 f.state
      → Recorded s0 (against_seen f subject id value seen).state
  unfolding against_seen
  against_seen-Recorded f subject id value [] h = h
  against_seen-Recorded f subject id value ((prior, prior_id) ∷ seen) h =
      against_seen-Recorded
        (if prior == value then f else conflict f prior_id id (both subject prior value) "high")
        subject id value seen
        (either-Recorded (prior == value) f _ h
          (conflict-Recorded f prior_id id (both subject prior value) "high" h))

  equality_entries-Recorded :
      (f : Found) (subject : String) (seen : Dict String String) (entries : List (String × String))
      → Recorded s0 f.state
      → Recorded s0 (equality_entries f subject seen entries).state
  unfolding equality_entries
  equality_entries-Recorded f subject seen [] h = h
  equality_entries-Recorded f subject seen ((id, value) ∷ entries) h =
      equality_entries-Recorded (against_seen f subject id value seen) subject (set seen value id)
        entries (against_seen-Recorded f subject id value seen h)

  equality_groups-Recorded :
      (f : Found) (groups : Dict String (List (String × String)))
      → Recorded s0 f.state
      → Recorded s0 (equality_groups f groups).state
  unfolding equality_groups
  equality_groups-Recorded f [] h = h
  equality_groups-Recorded f ((subject, entries) ∷ groups) h =
      equality_groups-Recorded (equality_entries f subject [] entries) groups
        (equality_entries-Recorded f subject [] entries h)

  found_conflict-Recorded :
      (f : Found) (left right : String) (o : Option String)
      → Recorded s0 f.state
      → Recorded s0 (found_conflict f left right o).state
  found_conflict-Recorded f left right none h = h
  found_conflict-Recorded f left right (some reason) h =
      conflict-Recorded f left right reason "unsat" h

  against_rest-Recorded :
      (f : Found) (id : String) (left : Constraint) (rest : List (String × Constraint))
      → Recorded s0 f.state
      → Recorded s0 (against_rest f id left rest).state
  unfolding against_rest
  against_rest-Recorded f id left [] h = h
  against_rest-Recorded f id left ((right_id, right) ∷ rest) h =
      against_rest-Recorded (found_conflict f id right_id (numeric_conflict_reason left right)) id
        left rest (found_conflict-Recorded f id right_id (numeric_conflict_reason left right) h)

  numeric_pairs-Recorded :
      (f : Found) (cs : List (String × Constraint))
      → Recorded s0 f.state
      → Recorded s0 (numeric_pairs f cs).state
  unfolding numeric_pairs
  numeric_pairs-Recorded f [] h = h
  numeric_pairs-Recorded f ((id, left) ∷ rest) h =
      numeric_pairs-Recorded (against_rest f id left rest) rest
        (against_rest-Recorded f id left rest h)

  numeric_groups-Recorded :
      (f : Found) (groups : Dict String (List (String × Constraint)))
      → Recorded s0 f.state
      → Recorded s0 (numeric_groups f groups).state
  unfolding numeric_groups
  numeric_groups-Recorded f [] h = h
  numeric_groups-Recorded f ((target, cs) ∷ groups) h =
      numeric_groups-Recorded (numeric_pairs f cs) groups (numeric_pairs-Recorded f cs h)

-- All that the verifier stack does to a state is to record contradictions in it.
pub stack-Recorded : (s : State) → Recorded s (evaluate s).0
unfolding evaluate Constraints.evaluate Contradictions.evaluate detect_equality_conflicts
    detect_numeric_constraint_conflicts
stack-Recorded s =
    numeric_groups-Recorded s _ _
      (equality_groups-Recorded s _ _ (verify_from-Recorded s 0 s.constraints s [] [] untouched))

pub record SameBut (s t : State) : Type 0 where
  pub contradictions : Grows s.contradictions t.contradictions
  pub claims : t.claims ≡ s.claims
  pub claim_index : t.claim_index ≡ s.claim_index
  pub relation_schemas : t.relation_schemas ≡ s.relation_schemas
  pub constraints : t.constraints ≡ s.constraints
  pub symbol_bindings : t.symbol_bindings ≡ s.symbol_bindings
  pub evidence : t.evidence ≡ s.evidence
  pub goals : t.goals ≡ s.goals

Recorded-SameBut : (s t : State) → Recorded s t → SameBut s t
unfolding record_contradiction
Recorded-SameBut s t untouched = record {
  contradictions = λ id. ([], sym (append-nil (or_nil (get s.contradictions id))));
  claims = refl;
  claim_index = refl;
  relation_schemas = refl;
  constraints = refl;
  symbol_bindings = refl;
  evidence = refl;
  goals = refl;
}
Recorded-SameBut s t (recorded {t = u} h element reason related severity) =
    let k = Recorded-SameBut s u h in
    record {
      contradictions =
          Grows-trans s.contradictions u.contradictions _ k.contradictions
            (append_all-Grows u.contradictions (element ∷ related) _);
      claims = k.claims;
      claim_index = k.claim_index;
      relation_schemas = k.relation_schemas;
      constraints = k.constraints;
      symbol_bindings = k.symbol_bindings;
      evidence = k.evidence;
      goals = k.goals;
    }

-- The verifier stack invents nothing: claims, index, schemas, constraints, bindings, evidence and
-- goals are after it as before, and under each element the contradictions are those of before, with
-- others behind them.
pub stack_invents_nothing : (s : State) → SameBut s (evaluate s).0
stack_invents_nothing s = Recorded-SameBut s (evaluate s).0 (stack-Recorded s)

Recorded-IsWellFormed : (s t : State) → Recorded s t → IsWellFormed s → IsWellFormed t
unfolding record_contradiction
Recorded-IsWellFormed s t untouched w = w
Recorded-IsWellFormed s t (recorded h element reason related severity) w =
    Recorded-IsWellFormed s _ h w

pub stack-IsWellFormed : (s : State) → IsWellFormed s → IsWellFormed (evaluate s).0
stack-IsWellFormed s w = Recorded-IsWellFormed s (evaluate s).0 (stack-Recorded s) w
