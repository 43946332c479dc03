-- ===== src/Verifier/Constraints/Correct.antt =====
-- When `ConstraintVerifier.evaluate` (src/vcse/verifier/constraint_verifier.py) passes, and what it
-- leaves in the state.
use vcse.Prelude.{
  ℕ, suc, String, Bool, true, false, ◌==◌, string_eq, eq_cases, ◌≡◌, ◌↔◌, refl, sym, ap, ◌∙◌, inl,
  inr, Option, none, some, List, [], ◌∷◌, ◌++◌, arith, All, is_empty,
}
use text.Mathlib.TextEquality.{eq_iff}
use vcse.Dict.{Dict, get}
use vcse.Number.{Number, compare_numeric}
use vcse.Value.{Value, as_number}
use vcse.Memory.Model.{State, Constraint}
use vcse.Memory.{constraint_id_for_index}
use vcse.Verifier.Base.{Reason, VerificationResult}
use vcse.Verifier.Constraints.{
  Verdict, pending, non_numeric, satisfied, violated, compared, bound_verdict, judge,
  record_violation, conclude, proceed, verify_from, evaluate,
}

-- A numeric constraint whose target is bound compares two numbers, and the comparison holds.
abbrev pub IsMet : Dict String Value → Constraint → Type 0
IsMet bindings c =
    c.kind ≡ "numeric"
    → (v : Value) → get bindings c.target ≡ some v
    → (a : Number) × (b : Number) × (as_number v ≡ some a)
      × (as_number c.value ≡ some b)
      × (compare_numeric a c.operator b ≡ true)

abbrev accepts : Verdict → Bool
accepts (pending r) = true
accepts satisfied = true
accepts _ = false

module _ (s : State) (c : Constraint) (id : String) where
  compared_met :
      (v : Value) (l r : Option Number)
      → accepts (compared c v l r) ≡ true
      → (a : Number) × (b : Number) × (l ≡ some a)
        × (r ≡ some b)
        × (compare_numeric a c.operator b ≡ true)
  compared_met v none r h = cc
  compared_met v (some a) none h = cc
  compared_met v (some a) (some b) h = (a, b, refl, refl, ground arith)

  judge_numeric :
      c.kind ≡ "numeric" → judge s c id ≡ bound_verdict c (get s.symbol_bindings c.target)
  unfolding judge
  judge_numeric k = rw k

  judge_other : (c.kind == "numeric") ≡ false → accepts (judge s c id) ≡ true
  unfolding judge
  judge_other k = rw k

  judge-IsMet : accepts (judge s c id) ≡ true → IsMet s.symbol_bindings c
  judge-IsMet h k v e =
      compared_met v (as_number v) (as_number c.value)
        (ap (λ o. accepts (bound_verdict c o)) (sym e) ∙ ap accepts (sym (judge_numeric k)) ∙ h)

  met_judge : IsMet s.symbol_bindings c → accepts (judge s c id) ≡ true
  met_judge m = elim (eq_cases c.kind "numeric") [
    | inr other ↦ judge_other (ground (arith, eq_iff c.kind "numeric"))
    | inl k ↦ ap accepts (judge_numeric k) ∙ bound k (get s.symbol_bindings c.target) refl
  ]
    where
      bound :
          c.kind ≡ "numeric"
          → (o : Option Value) → get s.symbol_bindings c.target ≡ o
          → accepts (bound_verdict c o) ≡ true
      bound k none e = refl
      bound k (some v) e = let (a, b, na, nb, holds) = m k v e in rw (na, nb, holds)

conclude_passed :
    (reasons : List Reason) (affected : List String)
    → (conclude reasons affected).passed ≡ is_empty affected
unfolding conclude
conclude_passed reasons [] = refl
conclude_passed reasons (a ∷ affected) = refl

is_empty-snoc : (xs : List String) (x : String) → is_empty (xs ++ x ∷ []) ≡ false
is_empty-snoc [] x = refl
is_empty-snoc (y ∷ xs) x = refl

-- What is shown of every later run of the loop: it does not pass once an element is affected, and
-- otherwise passes exactly if the remaining constraints are met, and then keeps the state.
record Loop (cs : List Constraint)
    (next : State → List Reason → List String → State × VerificationResult) : Type 0 where
  affected_fails :
      (s : State) (reasons : List Reason) (affected : List String)
      → is_empty affected ≡ false
      → (next s reasons affected).1.passed ≡ false
  met :
      (s : State) (reasons : List Reason)
      → All (IsMet s.symbol_bindings) cs
      → (next s reasons []).1.passed ≡ true
  passes :
      (s : State) (reasons : List Reason)
      → (next s reasons []).1.passed ≡ true
      → All (IsMet s.symbol_bindings) cs × ((next s reasons []).0 ≡ s)

module _ (c : Constraint) (cs : List Constraint)
    (next : State → List Reason → List String → State × VerificationResult) (l : Loop cs next)
    (id : String) where
  proceed_affected :
      (s : State) (reasons : List Reason) (affected : List String) (v : Verdict)
      → is_empty affected ≡ false
      → (proceed s c id reasons affected next v).1.passed ≡ false
  unfolding proceed
  proceed_affected s reasons affected (pending r) h = l.affected_fails s _ affected h
  proceed_affected s reasons affected satisfied h = l.affected_fails s reasons affected h
  proceed_affected s reasons affected non_numeric h = refl
  proceed_affected s reasons affected (violated r) h =
      l.affected_fails _ _ _ (is_empty-snoc affected id)

  proceed_met :
      (s : State) (reasons : List Reason) (v : Verdict)
      → accepts v ≡ true
      → All (IsMet s.symbol_bindings) cs
      → (proceed s c id reasons [] next v).1.passed ≡ true
  unfolding proceed
  proceed_met s reasons (pending r) h m = l.met s _ m
  proceed_met s reasons satisfied h m = l.met s reasons m
  proceed_met s reasons non_numeric h m = cc
  proceed_met s reasons (violated r) h m = cc

  proceed_passes :
      (s : State) (reasons : List Reason) (v : Verdict)
      → (proceed s c id reasons [] next v).1.passed ≡ true
      → (accepts v ≡ true)
        × All (IsMet s.symbol_bindings) cs
        × ((proceed s c id reasons [] next v).0 ≡ s)
  unfolding proceed
  proceed_passes s reasons (pending r) h = let (m, e) = l.passes s _ h in (refl, m, e)
  proceed_passes s reasons satisfied h = let (m, e) = l.passes s reasons h in (refl, m, e)
  proceed_passes s reasons non_numeric h = (cc, cc, cc)
  proceed_passes s reasons (violated r) h =
      absurd (conflict (l.affected_fails (record_violation s c id r) _ _ (is_empty-snoc [] id)) h)
    where
      conflict : {b : Bool} → b ≡ false → b ≡ true → ⊥
      conflict e f = cc (e, f)

verify_from-Loop : (i : ℕ) (cs : List Constraint) → Loop cs (verify_from i cs)
unfolding verify_from
verify_from-Loop i [] = record {
  affected_fails = λ s reasons affected h. conclude_passed reasons affected ∙ h;
  met = λ s reasons m. conclude_passed reasons [];
  passes = λ s reasons h. (tt, refl);
}
verify_from-Loop i (c ∷ cs) =
    let id = constraint_id_for_index i in
    let l = verify_from-Loop (suc i) cs in
    record {
      affected_fails =
          λ s reasons affected h. proceed_affected c cs _ l id s reasons affected (judge s c id) h;
      met = λ s reasons m.
          proceed_met c cs _ l id s reasons (judge s c id) (met_judge s c id m.0) m.1;
      passes = λ s reasons h.
          let (a, m, e) = proceed_passes c cs _ l id s reasons (judge s c id) h in
          ((judge-IsMet s c id a, m), e);
    }

-- The constraints pass if and only if each numeric constraint with a bound target compares two
-- numbers and holds of them.
pub constraints_pass_iff :
    (s : State) → ((evaluate s).1.passed ≡ true) ↔ All (IsMet s.symbol_bindings) s.constraints
unfolding evaluate
constraints_pass_iff s =
    let l = verify_from-Loop 0 s.constraints in ((λ h. (l.passes s [] h).0), l.met s [])

-- When the constraint verifier passes, it leaves the state as it was.
pub constraints_pass_keeps : (s : State) → (evaluate s).1.passed ≡ true → (evaluate s).0 ≡ s
unfolding evaluate
constraints_pass_keeps s h = ((verify_from-Loop 0 s.constraints).passes s [] h).1
