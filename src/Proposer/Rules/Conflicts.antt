-- ===== src/Proposer/Rules/Conflicts.antt =====
-- The equalities that contradict each other (`_propose_contradiction_candidates` of
-- src/vcse/proposer/rule_based.py).
use vcse.Prelude.{
  String, Bool, true, false, not, ◌||◌, ◌==◌, string_eq, ◌≡◌, refl, sym, ap, ◌∙◌, subst, List, [],
  ◌∷◌, ◌++◌, is_empty, Bool-cases, inl, inr, arith, All,
}
use text.Mathlib.TextEquality.{eq_iff}
use vcse.Dict.{Dict, get, set}
use vcse.Memory.Model.{State, Claim}
use vcse.Memory.{or_nil, get_contradictions_for}
use vcse.Proposer.Rules.{
  contradiction_of, is_equality, group_equalities, contradict_rest, contradict_entries,
  contradict_groups, propose_contradiction_candidates,
}
use vcse.Proposer.Rules.Justified.{
  IsStored, IsJustified, by_conflict, All-append, if-All, AllJustified, AllStored,
}

or_left : (a b : Bool) → (a || b) ≡ false → a ≡ false
or_left a b h = ground arith

module _ (s : State) where
  -- A claim that says what its subject equals
  abbrev Equates : String → Claim → Type 0
  Equates subject c = IsStored s c × (is_equality c ≡ true) × (c.subject ≡ subject)

  abbrev AreGroups : Dict String (List Claim) → Type 0
  AreGroups = All (λ p. All (Equates p.0) p.1)

  set-AreGroups :
      (d : Dict String (List Claim)) (subject : String) (cs : List Claim)
      → AreGroups d
      → All (Equates subject) cs
      → AreGroups (set d subject cs)
  unfolding set
  set-AreGroups [] subject cs h k = (k, tt)
  set-AreGroups ((i, ds) ∷ d) subject cs (g, h) k = elim (Bool-cases (i == subject)) [
    | inl same ↦
        rw (same, All) (subst (λ x. All (Equates x) cs) (sym ((eq_iff i subject).0 same)) k, h)
    | inr other ↦ rw (other, All) (g, set-AreGroups d subject cs h k)
  ]

  get-Equates :
      (d : Dict String (List Claim)) (subject : String)
      → AreGroups d
      → All (Equates subject) (or_nil (get d subject))
  unfolding get
  get-Equates [] subject h = tt
  get-Equates ((i, ds) ∷ d) subject (g, h) = elim (Bool-cases (i == subject)) [
    | inl same ↦ rw same (subst (λ x. All (Equates x) ds) ((eq_iff i subject).0 same) g)
    | inr other ↦ rw other (get-Equates d subject h)
  ]

  group_equalities-AreGroups :
      (d : Dict String (List Claim)) (claims : List Claim)
      → AreGroups d
      → AllStored s claims
      → AreGroups (group_equalities d claims)
  unfolding group_equalities
  group_equalities-AreGroups d [] h all = h
  group_equalities-AreGroups d (c ∷ cs) h (m, all) = elim (Bool-cases (is_equality c)) [
    | inl e ↦ rw e (
        group_equalities-AreGroups (set d c.subject (or_nil (get d c.subject) ++ c ∷ [])) cs
          (set-AreGroups d c.subject (or_nil (get d c.subject) ++ c ∷ []) h (
            All-append (Equates c.subject) (or_nil (get d c.subject)) (c ∷ [])
              (get-Equates d c.subject h) ((m, e, refl), tt)))
          all)
    | inr other ↦ rw other (group_equalities-AreGroups d cs h all)
  ]

  contradict_rest-Justified :
      (subject : String) (left : Claim)
      → Equates subject left
      → (rest : List Claim) → All (Equates subject) rest
      → AllJustified s (contradict_rest s subject left rest)
  unfolding contradict_rest
  contradict_rest-Justified subject left k [] h = tt
  contradict_rest-Justified subject left (m, e, same) (right ∷ rest) ((n, e', same'), h) =
      All-append (IsJustified s) _ (contradict_rest s subject left rest)
        (if-All s (left.object == right.object || not (is_empty (get_contradictions_for s left.id)))
          [] (contradiction_of subject left right ∷ []) (λ _. tt)
          (λ fails. (
            by_conflict left right m n e e' (same ∙ sym same')
                (λ q. cc (
                  (eq_iff left.object right.object).1 q,
                  or_left (left.object == right.object) _ fails,
                ))
                (ap (λ x. contradiction_of x left right) (sym same)),
            tt,
          )))
        (contradict_rest-Justified subject left (m, e, same) rest h)

  contradict_entries-Justified :
      (subject : String) (entries : List Claim)
      → All (Equates subject) entries
      → AllJustified s (contradict_entries s subject entries)
  unfolding contradict_entries
  contradict_entries-Justified subject [] h = tt
  contradict_entries-Justified subject (left ∷ rest) (k, h) =
      All-append (IsJustified s) (contradict_rest s subject left rest)
        (contradict_entries s subject rest) (contradict_rest-Justified subject left k rest h)
        (contradict_entries-Justified subject rest h)

  contradict_groups-Justified :
      (d : Dict String (List Claim)) → AreGroups d → AllJustified s (contradict_groups s d)
  unfolding contradict_groups
  contradict_groups-Justified [] h = tt
  contradict_groups-Justified ((subject, entries) ∷ d) (g, h) =
      All-append (IsJustified s) (contradict_entries s subject entries) (contradict_groups s d)
        (contradict_entries-Justified subject entries g) (contradict_groups-Justified d h)

  pub contradictions-Justified :
      (claims : List Claim)
      → AllStored s claims
      → AllJustified s (propose_contradiction_candidates s claims)
  unfolding propose_contradiction_candidates
  contradictions-Justified claims all =
      contradict_groups-Justified (group_equalities [] claims)
        (group_equalities-AreGroups [] claims tt all)
