-- ===== src/Proposer/Domain/Correct.antt =====
-- Why each proposal of src/vcse/proposer/domain_specific.py is made.
use vcse.Prelude.{
  ℕ, suc, ◌≤◌, String, Bool, true, false, ◌&&◌, ◌==◌, string_eq, ◌≡◌, refl, sym, ap, ◌∙◌, some_eq,
  Option, none, some, List, [], ◌∷◌, ◌++◌, length, if◌then◌else◌, Bool-cases, inl, inr, arith, All,
  length-take-le,
}
use text.Mathlib.TextEquality.{eq_iff}
use vcse.Dict.{Dict, get, set, has, values}
use vcse.Dict.Laws.{get-set, values-set-All, get-All}
use vcse.Number.{Number, compare_numeric}
use vcse.Value.{Value, num, as_number}
use vcse.Memory.Model.{State, Claim, Constraint, Goal}
use vcse.Memory.{constraint_id_for_index}
use vcse.Verifier.Contradictions.{is_final}
use vcse.Transition.Args.{Transition}
use vcse.Proposer.Rules.Justified.{IsStored, All-append, All-take, All-Member}
use vcse.Proposer.Domain.Reason.{
  IsNumbered, first, later, IsChecked, HasReason, by_number, by_satisfaction, by_violation,
  by_implication,
}
use vcse.Proposer.Domain.{
  bind_number, support_of, conflict_of, check_numbers, check_bound, check_constraints,
  is_true_claim, collect_true, conclusion_of, conclude, apply_implications, propose_symbolic_logic,
  parse_number, bind_unbound, bind_equalities, propose_arithmetic, propose_domain,
}

second_true : (a b : Bool) → (a && b) ≡ true → b ≡ true
second_true a b h = ground arith

first_true : (a b : Bool) → (a && b) ≡ true → a ≡ true
first_true a b h = ground arith

module _ (float_of : String → Option Number) (is_integer : Number → Bool)
    (int_text float_text : Number → String) (s : State) where
  abbrev AllReasoned : List Transition → Type 0
  AllReasoned = All (HasReason float_of is_integer int_text float_text s)

  if-AllReasoned :
      (b : Bool) (ts us : List Transition)
      → (b ≡ true → AllReasoned ts)
      → (b ≡ false → AllReasoned us)
      → AllReasoned (if b then ts else us)
  if-AllReasoned true ts us h k = h refl
  if-AllReasoned false ts us h k = k refl

  module _ (j : ℕ) (c : Constraint) (stands : IsNumbered j c 0 s.constraints)
      (numeric : c.kind ≡ "numeric") where
    check_numbers-AllReasoned :
        (bound : Value)
        → get s.symbol_bindings c.target ≡ some bound
        → (l r : Option Number) → as_number bound ≡ l
        → as_number c.value ≡ r
        → AllReasoned (check_numbers (constraint_id_for_index j) c bound l r)
    check_numbers-AllReasoned bound at none r p q = tt
    check_numbers-AllReasoned bound at (some left) none p q = tt
    check_numbers-AllReasoned bound at (some left) (some right) p q =
        let id = constraint_id_for_index j in
        let checked : IsChecked s id c bound left right = record {
          position = j;
          stands = stands;
          identified = refl;
          numeric = numeric;
          bound_to = at;
          left_number = p;
          right_number = q;
        } in
        if-AllReasoned (compare_numeric left c.operator right) (support_of id c bound ∷ [])
          (conflict_of id c bound ∷ [])
          (λ holds. (by_satisfaction id c bound left right checked holds refl, tt))
          (λ fails. (by_violation id c bound left right checked fails refl, tt))

    check_bound-AllReasoned :
        (o : Option Value)
        → get s.symbol_bindings c.target ≡ o
        → AllReasoned (check_bound (constraint_id_for_index j) c o)
    check_bound-AllReasoned none at = tt
    check_bound-AllReasoned (some bound) at =
        check_numbers-AllReasoned bound at (as_number bound) (as_number c.value) refl refl

  check_constraints-AllReasoned :
      (i : ℕ) (cs : List Constraint)
      → ((j : ℕ) (c : Constraint) → IsNumbered j c i cs → IsNumbered j c 0 s.constraints)
      → AllReasoned (check_constraints s i cs)
  unfolding check_constraints
  check_constraints-AllReasoned i [] within = tt
  check_constraints-AllReasoned i (c ∷ cs) within =
      All-append (HasReason float_of is_integer int_text float_text s) _
        (check_constraints s (suc i) cs)
        (if-AllReasoned (c.kind == "numeric")
          (check_bound (constraint_id_for_index i) c (get s.symbol_bindings c.target)) []
          (λ k.
            check_bound-AllReasoned i c (within i c (first i cs refl))
              ((eq_iff c.kind "numeric").0 k) (get s.symbol_bindings c.target) refl)
          (λ _. tt))
        (check_constraints-AllReasoned (suc i) cs (λ j d n. within j d (later i c cs n)))

  -- A stored claim that something is true
  abbrev IsTruth : Claim → Type 0
  IsTruth c = IsStored s c × (is_true_claim c ≡ true)

  collect_true-All :
      (d : Dict String Claim) (cs : List Claim)
      → All IsTruth (values d)
      → All (IsStored s) cs
      → All IsTruth (values (collect_true d cs))
  unfolding collect_true
  collect_true-All d [] h all = h
  collect_true-All d (c ∷ cs) h (m, all) = elim (Bool-cases (is_true_claim c)) [
    | inl e ↦ rw e (
        collect_true-All (set d c.subject c) cs (values-set-All IsTruth d c.subject c h (m, e)) all)
    | inr other ↦ rw other (collect_true-All d cs h all)
  ]

  -- A claim stands under its subject.
  abbrev IsKeyed : Dict String Claim → Type 0
  IsKeyed d = (k : String) (p : Claim) → get d k ≡ some p → p.subject ≡ k

  set-IsKeyed : (d : Dict String Claim) (c : Claim) → IsKeyed d → IsKeyed (set d c.subject c)
  set-IsKeyed d c h k p at = by_key (c.subject == k) refl (sym (get-set d c.subject k c) ∙ at)
    where
      by_key :
          (b : Bool)
          → (c.subject == k) ≡ b
          → (if b then some c else get d k) ≡ some p
          → p.subject ≡ k
      by_key true e f = ap (λ q. q.subject) (sym (some_eq f)) ∙ (eq_iff c.subject k).0 e
      by_key false e f = h k p f

  collect_true-IsKeyed :
      (d : Dict String Claim) (cs : List Claim) → IsKeyed d → IsKeyed (collect_true d cs)
  unfolding collect_true
  collect_true-IsKeyed d [] h = h
  collect_true-IsKeyed d (c ∷ cs) h = elim (Bool-cases (is_true_claim c)) [
    | inl e ↦ rw e (collect_true-IsKeyed (set d c.subject c) cs (set-IsKeyed d c h))
    | inr other ↦ rw other (collect_true-IsKeyed d cs h)
  ]

  conclude-AllReasoned :
      (c : Claim)
      → IsStored s c
      → c.relation ≡ "implies"
      → (o : Option Claim) → ((p : Claim) → o ≡ some p → IsTruth p × (p.subject ≡ c.subject))
      → AllReasoned (conclude s c o)
  conclude-AllReasoned c m r none h = tt
  conclude-AllReasoned c m r (some p) h =
      let ((n, e), same) = h p refl in
      if-AllReasoned _ [] (conclusion_of p c ∷ []) (λ _. tt)
        (λ absent. (by_implication p c n m e same r absent refl, tt))

  apply_implications-AllReasoned :
      (facts : Dict String Claim)
      → All IsTruth (values facts)
      → IsKeyed facts
      → (cs : List Claim) → All (IsStored s) cs
      → AllReasoned (apply_implications s facts cs)
  unfolding apply_implications
  apply_implications-AllReasoned facts h keyed [] all = tt
  apply_implications-AllReasoned facts h keyed (c ∷ cs) (m, all) =
      All-append (HasReason float_of is_integer int_text float_text s) _
        (apply_implications s facts cs)
        (if-AllReasoned (c.relation == "implies") (conclude s c (get facts c.subject)) []
          (λ k.
            conclude-AllReasoned c m ((eq_iff c.relation "implies").0 k) (get facts c.subject)
              (λ p at. (get-All IsTruth facts c.subject p h at, keyed c.subject p at)))
          (λ _. tt))
        (apply_implications-AllReasoned facts h keyed cs all)

  bind_unbound-AllReasoned :
      (c : Claim)
      → IsStored s c
      → c.relation ≡ "equals"
      → is_final c.status ≡ true
      → AllReasoned (
          bind_unbound float_of is_integer int_text float_text s c
            (parse_number float_of is_integer int_text float_text c.object))
  unfolding parse_number
  bind_unbound-AllReasoned c m r f = by_text (float_of c.object) refl
    where
      by_text :
          (o : Option Number)
          → float_of c.object ≡ o
          → AllReasoned (
              bind_unbound float_of is_integer int_text float_text s c (elim o [
                | none ↦ none
                | some n ↦ some (num n (if is_integer n then int_text n else float_text n))
              ]))
      by_text none e = tt
      by_text (some n) e =
          if-AllReasoned (has s.symbol_bindings c.subject) [] (bind_number c _ ∷ []) (λ _. tt)
            (λ unbound. (
              by_number c n
                  (record { stored = m; equates = r; final = f; unbound = unbound; read = e }) refl,
              tt,
            ))

  bind_equalities-AllReasoned :
      (cs : List Claim)
      → All (IsStored s) cs
      → AllReasoned (bind_equalities float_of is_integer int_text float_text s cs)
  unfolding bind_equalities
  bind_equalities-AllReasoned [] all = tt
  bind_equalities-AllReasoned (c ∷ cs) (m, all) =
      All-append (HasReason float_of is_integer int_text float_text s) _
        (bind_equalities float_of is_integer int_text float_text s cs)
        (if-AllReasoned (c.relation == "equals" && is_final c.status)
          (bind_unbound float_of is_integer int_text float_text s c
            (parse_number float_of is_integer int_text float_text c.object))
          []
          (λ k.
            bind_unbound-AllReasoned c m ((eq_iff c.relation "equals").0 (first_true _ _ k))
              (second_true _ _ k))
          (λ _. tt))
        (bind_equalities-AllReasoned cs all)

  no_entry : IsKeyed []
  unfolding get
  no_entry k p at = cc

  -- Every proposal has its reason in the state: a stored and final equality of an unbound symbol with
  -- a text that is read as the number that is bound, a numeric constraint of the state, under its id,
  -- that holds of the bound number, one that does not, or a stored implication with a stored truth of
  -- its subject as its premise, whose conclusion is not stored; and there are no more proposals than the limit.
  pub propose_domain-HasReason :
      (limit : ℕ) (goal : Option Goal)
      → All
          (HasReason float_of is_integer int_text float_text s)
          (propose_domain float_of is_integer int_text float_text limit s goal)
        × (length (propose_domain float_of is_integer int_text float_text limit s goal) ≤ limit)
  unfolding propose_domain propose_arithmetic propose_symbolic_logic
  propose_domain-HasReason limit goal =
      let stored = All-Member (values s.claims) in
      let binds = bind_equalities float_of is_integer int_text float_text s (values s.claims) in
      let checks = check_constraints s 0 s.constraints in
      let facts = collect_true [] (values s.claims) in
      let logic = apply_implications s facts (values s.claims) in
      let all = (binds ++ checks) ++ (logic ++ []) in
      (
        All-take (HasReason float_of is_integer int_text float_text s) limit all (
            All-append (HasReason float_of is_integer int_text float_text s) (binds ++ checks)
              (logic ++ [])
              (All-append (HasReason float_of is_integer int_text float_text s) binds checks
                (bind_equalities-AllReasoned (values s.claims) stored)
                (check_constraints-AllReasoned 0 s.constraints (λ j c n. n)))
              (All-append (HasReason float_of is_integer int_text float_text s) logic []
                (apply_implications-AllReasoned facts
                  (collect_true-All [] (values s.claims) tt stored)
                  (collect_true-IsKeyed [] (values s.claims) (λ k p at. no_entry k p at))
                  (values s.claims) stored)
                tt)),
        length-take-le limit all,
      )
