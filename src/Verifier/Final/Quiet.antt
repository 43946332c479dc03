-- ===== src/Verifier/Final/Quiet.antt =====
-- States without contradictions, and the tests of src/vcse/verifier/final_state.py that see them.
use vcse.Prelude.{
  String, Bool, true, false, ◌&&◌, ◌==◌, string_eq, List, [], ◌∷◌, ◌++◌, ◌≡◌, ◌↔◌, refl, arith,
  is_empty, any, contains, All, if◌then◌else◌, inl, inr, Option-cases,
}
use vcse.Dict.{get, values}
use vcse.Dict.Laws.{get-All}
use vcse.Memory.Model.{State, Contradiction}
use vcse.Memory.{get_contradictions_for, has_contradiction_on_path, or_nil}
use vcse.Verifier.Final.{reasons_of, reasons_from, contradiction_reasons, has_unsat_contradiction}

-- No element has a contradiction.
abbrev pub IsQuiet : State → Type 0
IsQuiet s = All (λ (cs : List Contradiction). cs ≡ []) (values s.contradictions)

-- Adding a reason leaves no empty list.
extended :
    (reason : String) (rs : List String)
    → is_empty (if contains reason rs then rs else rs ++ reason ∷ []) ≡ false
unfolding contains
extended reason [] = refl
extended reason (r ∷ rs) = ground arith

reasons_of-empty :
    (rs : List String) (cs : List Contradiction)
    → is_empty (reasons_of rs cs) ≡ (is_empty rs && is_empty cs)
unfolding reasons_of
reasons_of-empty [] [] = refl
reasons_of-empty (r ∷ rs) [] = refl
reasons_of-empty rs (c ∷ cs) = ground (
  arith,
  reasons_of-empty (if contains c.reason rs then rs else rs ++ c.reason ∷ []) cs,
  extended c.reason rs,
)

abbrev all_empty : List (List Contradiction) → Bool
all_empty [] = true
all_empty (cs ∷ css) = is_empty cs && all_empty css

reasons_from-empty :
    (rs : List String) (css : List (List Contradiction))
    → is_empty (reasons_from rs css) ≡ (is_empty rs && all_empty css)
unfolding reasons_from
reasons_from-empty rs [] = ground arith
reasons_from-empty rs (cs ∷ css) =
    ground (arith, reasons_from-empty (reasons_of rs cs) css, reasons_of-empty rs cs)

empty→nil {ℓ} : {A : Type ℓ} (xs : List A) → is_empty xs ≡ true → xs ≡ []
empty→nil [] h = refl
empty→nil (x ∷ xs) h = cc

all_empty_iff : (css : List (List Contradiction)) → (all_empty css ≡ true) ↔ All (λ cs. cs ≡ []) css
all_empty_iff [] = ((λ h. tt), (λ h. refl))
all_empty_iff (cs ∷ css) = (
  (λ h. (empty→nil cs (ground arith), (all_empty_iff css).0 (ground arith))),
  (λ h. rw (h.0, (all_empty_iff css).1 h.1)),
)

pub contradiction_reasons_iff :
    (s : State) → (is_empty (contradiction_reasons s) ≡ true) ↔ IsQuiet s
unfolding contradiction_reasons
contradiction_reasons_iff s =
    rw (reasons_from-empty [] (values s.contradictions)) (all_empty_iff (values s.contradictions))

any-quiet :
    (p : List Contradiction → Bool) (css : List (List Contradiction))
    → p [] ≡ false
    → All (λ cs. cs ≡ []) css
    → any p css ≡ false
unfolding any
any-quiet p [] e h = refl
any-quiet p (cs ∷ css) e h = rw (h.0, e) (any-quiet p css e h.1)

pub has_unsat_contradiction-IsQuiet : (s : State) → IsQuiet s → has_unsat_contradiction s ≡ false
unfolding has_unsat_contradiction
has_unsat_contradiction-IsQuiet s q =
    any-quiet (any (λ (c : Contradiction). c.severity == "unsat")) (values s.contradictions)
      (unfold any in refl) q

get_contradictions_for-IsQuiet :
    (s : State) (id : String) → IsQuiet s → get_contradictions_for s id ≡ []
unfolding get_contradictions_for
get_contradictions_for-IsQuiet s id q = elim (Option-cases (get s.contradictions id)) [
  | inl absent ↦ rw (absent, or_nil)
  | inr (cs, stored) ↦
      rw (stored, or_nil)
        (get-All (λ (cs : List Contradiction). cs ≡ []) s.contradictions id cs q stored)
]

pub path-IsQuiet :
    (s : State) (ids : List String) → IsQuiet s → has_contradiction_on_path s ids ≡ false
unfolding has_contradiction_on_path any
path-IsQuiet s [] q = refl
path-IsQuiet s (id ∷ ids) q = rw (get_contradictions_for-IsQuiet s id q) (path-IsQuiet s ids q)
