-- ===== src/Proposer/Rules/Justified.antt =====
-- Why each proposal of the rules (src/vcse/proposer/rule_based.py) is made.
use vcse.Prelude.{
  ℕ, zero, suc, String, Bool, true, false, not, ◌||◌, ◌==◌, string_eq, ◌≡◌, ◌≢◌, refl, List, [],
  ◌∷◌, ◌++◌, length, take, leb, is_some, filterb, if◌then◌else◌, Bool-cases, inl, inr, arith, All,
  Member, here, there,
}
use text.Mathlib.TextEquality.{eq_iff}
use vcse.Dict.{values}
use vcse.Memory.Model.{State, Claim}
use vcse.Memory.{get_relation_schema, find_claim}
use vcse.Verifier.Claims.{is_transitive}
use vcse.Transition.Args.{Transition}
use vcse.Proposer.Rules.{
  transitive_claim, equal_claim, contradiction_of, is_equality, Proposed, more, full, proposals_of,
  extends, appended, transitive_right, then_more, transitive_left, replace_subject, replace_object,
  propagate_equality, propagate_each,
}

-- A claim of the state
abbrev pub IsStored : State → Claim → Type 0
IsStored s c = Member c (values s.claims)

abbrev pub IsAbsent : State → (subject relation object : String) → Type 0
IsAbsent s subject relation object = is_some (find_claim s subject relation object []) ≡ false

-- The rules, with what each asks of the claims of the state
pub data IsJustified (s : State) (t : Transition) : Type 0 where
  by_transitivity :
      (left right : Claim)
      → IsStored s left
      → IsStored s right
      → is_transitive (get_relation_schema s left.relation) ≡ true
      → left.relation ≡ right.relation
      → left.object ≡ right.subject
      → IsAbsent s left.subject left.relation right.object
      → t ≡ transitive_claim left right
      → IsJustified s t
  by_equal_subject :
      (equality claim : Claim)
      → IsStored s equality
      → IsStored s claim
      → is_equality equality ≡ true
      → claim.subject ≡ equality.object
      → IsAbsent s equality.subject claim.relation claim.object
      → t
        ≡ equal_claim equality.subject claim.relation claim.object equality.id claim.id equality
            claim
      → IsJustified s t
  by_equal_object :
      (equality claim : Claim)
      → IsStored s equality
      → IsStored s claim
      → is_equality equality ≡ true
      → claim.object ≡ equality.subject
      → IsAbsent s claim.subject claim.relation equality.object
      → t
        ≡ equal_claim claim.subject claim.relation equality.object claim.id equality.id equality
            claim
      → IsJustified s t
  by_conflict :
      (left right : Claim)
      → IsStored s left
      → IsStored s right
      → is_equality left ≡ true
      → is_equality right ≡ true
      → left.subject ≡ right.subject
      → left.object ≢ right.object
      → t ≡ contradiction_of left.subject left right
      → IsJustified s t

module _ {A : Type 0} (P : A → Type 0) where
  pub All-append : (xs ys : List A) → All P xs → All P ys → All P (xs ++ ys)
  All-append [] ys h k = k
  All-append (x ∷ xs) ys (p, h) k = (p, All-append xs ys h k)

  pub All-take : (n : ℕ) (xs : List A) → All P xs → All P (take n xs)
  All-take zero xs h = tt
  All-take (suc n) [] h = tt
  All-take (suc n) (x ∷ xs) (p, h) = (p, All-take n xs h)

  pub All-filterb :
      (test : A → Bool) (xs : List A)
      → All P xs
      → All (λ x. P x × (test x ≡ true)) (filterb test xs)
  unfolding filterb
  All-filterb test [] h = tt
  All-filterb test (x ∷ xs) (p, h) = elim (Bool-cases (test x)) [
    | inl holds ↦ rw (holds, All) ((p, holds), All-filterb test xs h)
    | inr fails ↦ rw (fails, All) (All-filterb test xs h)
  ]

pub All-Member : {A : Type 0} (xs : List A) → All (λ x. Member x xs) xs
All-Member {A = A} xs = within xs (λ x m. m)
  where
    within : (ys : List A) → ((x : A) → Member x ys → Member x xs) → All (λ x. Member x xs) ys
    within [] f = tt
    within (y ∷ ys) f = (f y (here y ys refl), within ys (λ x m. f x (there y ys m)))

module _ (s : State) where
  abbrev pub AllJustified : List Transition → Type 0
  AllJustified = All (IsJustified s)

  abbrev pub AllStored : List Claim → Type 0
  AllStored = All (IsStored s)

  pub if-All :
      (b : Bool) (ts us : List Transition)
      → (b ≡ true → AllJustified ts)
      → (b ≡ false → AllJustified us)
      → AllJustified (if b then ts else us)
  if-All true ts us h k = h refl
  if-All false ts us h k = k refl

  abbrev pub AreProposed : Proposed → Type 0
  AreProposed p = AllJustified (proposals_of p)

  proposed-if :
      (b : Bool) (p q : Proposed)
      → (b ≡ true → AreProposed p)
      → (b ≡ false → AreProposed q)
      → AreProposed (if b then p else q)
  proposed-if true p q h k = h refl
  proposed-if false p q h k = k refl

  appended-AreProposed :
      (limit : ℕ) (ts : List Transition) (next : List Transition → Proposed)
      → ((us : List Transition) → AllJustified us → AreProposed (next us))
      → AllJustified ts
      → AreProposed (appended limit ts next)
  appended-AreProposed limit ts next go_on h = elim (Bool-cases (leb limit (length ts))) [
    | inl last ↦ rw last h
    | inr room ↦ rw room (go_on ts h)
  ]

  extends_parts :
      (left right : Claim)
      → extends s left right ≡ true
      → (left.relation ≡ right.relation)
        × (left.object ≡ right.subject)
        × IsAbsent s left.subject left.relation right.object
  unfolding extends
  extends_parts left right h =
      ground (arith, eq_iff left.relation right.relation, eq_iff left.object right.subject)

  transitive_right-AreProposed :
      (limit : ℕ) (left : Claim)
      → IsStored s left
      → is_transitive (get_relation_schema s left.relation) ≡ true
      → (rest : List Claim) → AllStored rest
      → (ts : List Transition) → AllJustified ts
      → AreProposed (transitive_right s limit left rest ts)
  unfolding transitive_right
  transitive_right-AreProposed limit left m transitive [] all ts h = h
  transitive_right-AreProposed limit left m transitive (right ∷ rest) (n, all) ts h =
      proposed-if (extends s left right)
        (appended limit (ts ++ transitive_claim left right ∷ [])
          (transitive_right s limit left rest))
        (transitive_right s limit left rest ts)
        (λ holds.
          let (relation, middle, absent) = extends_parts left right holds in
          appended-AreProposed limit (ts ++ transitive_claim left right ∷ [])
            (transitive_right s limit left rest)
            (transitive_right-AreProposed limit left m transitive rest all)
            (All-append (IsJustified s) ts (transitive_claim left right ∷ []) h
              (by_transitivity left right m n transitive relation middle absent refl, tt)))
        (λ fails. transitive_right-AreProposed limit left m transitive rest all ts h)

  then_more-AreProposed :
      (p : Proposed) (next : List Transition → Proposed)
      → ((us : List Transition) → AllJustified us → AreProposed (next us))
      → AreProposed p
      → AreProposed (then_more p next)
  then_more-AreProposed (more ts) next go_on h = go_on ts h
  then_more-AreProposed (full ts) next go_on h = h

  pub transitive_left-AreProposed :
      (limit : ℕ) (claims : List Claim)
      → AllStored claims
      → (rest : List Claim) → AllStored rest
      → (ts : List Transition) → AllJustified ts
      → AreProposed (transitive_left s limit claims rest ts)
  unfolding transitive_left
  transitive_left-AreProposed limit claims stored [] all ts h = h
  transitive_left-AreProposed limit claims stored (left ∷ rest) (m, all) ts h =
      proposed-if (not (is_transitive (get_relation_schema s left.relation)))
        (transitive_left s limit claims rest ts)
        (then_more (transitive_right s limit left claims ts) (transitive_left s limit claims rest))
        (λ _. transitive_left-AreProposed limit claims stored rest all ts h)
        (λ has.
          then_more-AreProposed (transitive_right s limit left claims ts)
            (transitive_left s limit claims rest)
            (transitive_left-AreProposed limit claims stored rest all)
            (transitive_right-AreProposed limit left m (ground arith) claims stored ts h))

  module _ (equality : Claim) (m : IsStored s equality) (e : is_equality equality ≡ true) where
    replace_subject-Justified :
        (claim : Claim) → IsStored s claim → AllJustified (replace_subject s equality claim)
    unfolding replace_subject
    replace_subject-Justified claim n =
        if-All _
          (equal_claim equality.subject claim.relation claim.object equality.id claim.id equality
              claim
            ∷ [])
          []
          (λ holds. (
            by_equal_subject equality claim m n e
                ((eq_iff claim.subject equality.object).0 (ground arith)) (ground arith) refl,
            tt,
          ))
          (λ _. tt)

    replace_object-Justified :
        (claim : Claim) → IsStored s claim → AllJustified (replace_object s equality claim)
    unfolding replace_object
    replace_object-Justified claim n =
        if-All _
          (equal_claim claim.subject claim.relation equality.object claim.id equality.id equality
              claim
            ∷ [])
          []
          (λ holds. (
            by_equal_object equality claim m n e
                ((eq_iff claim.object equality.subject).0 (ground arith)) (ground arith) refl,
            tt,
          ))
          (λ _. tt)

    propagate_equality-Justified :
        (claims : List Claim)
        → AllStored claims
        → AllJustified (propagate_equality s equality claims)
    unfolding propagate_equality
    propagate_equality-Justified [] h = tt
    propagate_equality-Justified (claim ∷ rest) (n, h) =
        All-append (IsJustified s) _ (propagate_equality s equality rest)
          (if-All (claim.id == equality.id || claim.relation == "equals") []
            (replace_subject s equality claim ++ replace_object s equality claim) (λ _. tt)
            (λ _.
              All-append (IsJustified s) (replace_subject s equality claim)
                (replace_object s equality claim) (replace_subject-Justified claim n)
                (replace_object-Justified claim n)))
          (propagate_equality-Justified rest h)

  pub propagate_each-Justified :
      (claims : List Claim)
      → AllStored claims
      → (rest : List Claim) → All (λ c. IsStored s c × (is_equality c ≡ true)) rest
      → AllJustified (propagate_each s claims rest)
  unfolding propagate_each
  propagate_each-Justified claims stored [] h = tt
  propagate_each-Justified claims stored (equality ∷ rest) ((m, e), h) =
      All-append (IsJustified s) (propagate_equality s equality claims)
        (propagate_each s claims rest) (propagate_equality-Justified equality m e claims stored)
        (propagate_each-Justified claims stored rest h)
