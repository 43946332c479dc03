-- ===== src/Verifier/Contradictions/Bounds.antt =====
-- `_numeric_conflict_reason` of src/vcse/verifier/contradiction_detector.py against the meaning of
-- the two constraints: which numbers satisfy both.
use vcse.Prelude.{
  Bool, true, false, ◌&&◌, ◌||◌, ◌≡◌, ◌↔◌, refl, sym, ap, ◌∙◌, inl, inr, Option, none, some, String,
  arith, is_some, Bool-cases,
}
use vcse.Number.{Number, Operator, gt, ge, lt_op, le_op, lt, le, equal, compare_numeric}
use vcse.Number.Order.{
  le-lt-false, lt-le_apart, le-lt_apart, is_finite, midpoint, midpoint_between, finite_total,
  equal_refl,
}
use vcse.Value.{as_number}
use vcse.Memory.Model.{Constraint}
use vcse.Verifier.Contradictions.{is_lower, is_upper, is_strict, turn, numeric_conflict_reason}

-- The test of the code on two bounds
abbrev conflicting : (lower upper : Operator) → (l u : Number) → Bool
conflicting lower upper l u = lt u l || (equal l u && (is_strict lower || is_strict upper))

lt→le : (a b : Number) → lt a b ≡ true → le a b ≡ true
unfolding le
lt→le a b h = rw h

conflicting_sound :
    (lower upper : Operator) (l u x : Number)
    → is_lower lower ≡ true
    → is_upper upper ≡ true
    → conflicting lower upper l u ≡ true
    → compare_numeric x lower l ≡ true
    → compare_numeric x upper u ≡ true
    → ⊥
unfolding compare_numeric
conflicting_sound gt lt_op l u x p q h a b =
    ground (arith, le-lt-false l x u (lt→le l x a) (lt→le x u b), lt-le_apart l x u a (lt→le x u b))
conflicting_sound gt le_op l u x p q h a b =
    ground (arith, le-lt-false l x u (lt→le l x a) b, lt-le_apart l x u a b)
conflicting_sound ge lt_op l u x p q h a b =
    ground (arith, le-lt-false l x u a (lt→le x u b), le-lt_apart l x u a b)
conflicting_sound ge le_op l u x p q h a b = ground (arith, le-lt-false l x u a b)
conflicting_sound _ _ l u x p q h a b = cc

module _ (l u : Number) where
  over :
      (lower : Operator) (x : Number)
      → is_lower lower ≡ true
      → lt l x ≡ true
      → compare_numeric x lower l ≡ true
  unfolding compare_numeric le
  over gt x p h = h
  over ge x p h = rw h
  over _ x p h = cc

  under :
      (upper : Operator) (x : Number)
      → is_upper upper ≡ true
      → lt x u ≡ true
      → compare_numeric x upper u ≡ true
  unfolding compare_numeric le
  under lt_op x p h = h
  under le_op x p h = rw h
  under _ x p h = cc

  at_bound :
      (lower upper : Operator)
      → is_lower lower ≡ true
      → is_upper upper ≡ true
      → (is_strict lower || is_strict upper) ≡ false
      → is_finite l ≡ true
      → equal l u ≡ true
      → (compare_numeric l lower l ≡ true) × (compare_numeric l upper u ≡ true)
  unfolding compare_numeric le
  at_bound ge le_op p q n f e = (ground (arith, equal_refl l), ground arith)
  at_bound _ _ p q n f e = ground arith

  -- Where the test finds no conflict, a number between finite bounds satisfies both.
  conflicting_complete :
      (lower upper : Operator)
      → is_lower lower ≡ true
      → is_upper upper ≡ true
      → is_finite l ≡ true
      → is_finite u ≡ true
      → conflicting lower upper l u ≡ false
      → (x : Number) × (compare_numeric x lower l ≡ true) × (compare_numeric x upper u ≡ true)
  conflicting_complete lower upper p q f g h = elim (Bool-cases (equal l u)) [
    | inl same ↦
        let (above, below) = at_bound lower upper p q (ground arith) f same in (l, above, below)
    | inr other ↦
        let (above, below) = midpoint_between l u f g (finite_total l u f g (ground arith) other) in
        (midpoint l u, over lower (midpoint l u) p above, under upper (midpoint l u) q below)
  ]

module _ (left right : Constraint) where
  bounds_some :
      (l u : Number)
      → is_lower left.operator ≡ true
      → is_upper right.operator ≡ true
      → as_number left.value ≡ some l
      → as_number right.value ≡ some u
      → is_some (numeric_conflict_reason left right) ≡ conflicting left.operator right.operator l u
  unfolding numeric_conflict_reason turn
  bounds_some l u p q a b = ground arith

  none_iff : {A : Type 0} (o : Option A) → (o ≡ none) ↔ (is_some o ≡ false)
  none_iff none = ((λ e. refl), (λ e. refl))
  none_iff (some a) = ((λ e. cc), (λ e. cc))

  -- For a finite lower bound and a finite upper bound, no conflict is reported if and only if some
  -- number satisfies both constraints.
  pub numeric_conflict_iff :
      (l u : Number)
      → is_lower left.operator ≡ true
      → is_upper right.operator ≡ true
      → as_number left.value ≡ some l
      → as_number right.value ≡ some u
      → is_finite l ≡ true
      → is_finite u ≡ true
      → (numeric_conflict_reason left right ≡ none) ↔ (
          (x : Number) × (compare_numeric x left.operator l ≡ true)
          × (compare_numeric x right.operator u ≡ true))
  numeric_conflict_iff l u p q a b f g = (
    (λ e.
        conflicting_complete l u left.operator right.operator p q f g
          (sym (bounds_some l u p q a b) ∙ ap is_some e)),
    (λ (x, above, below). elim (Bool-cases (conflicting left.operator right.operator l u)) [
      | inl clash ↦
          absurd (conflicting_sound left.operator right.operator l u x p q clash above below)
      | inr fits ↦
          (none_iff (numeric_conflict_reason left right)).1 (bounds_some l u p q a b ∙ fits)
    ]),
  )

-- The reason that is reported for two constraints does not depend on their order.
numeric_conflict_comm :
    (left right : Constraint)
    → numeric_conflict_reason left right ≡ numeric_conflict_reason right left
unfolding numeric_conflict_reason turn
numeric_conflict_comm left right = ground arith

one_sided :
    (left right : Constraint)
    → (is_lower left.operator && is_upper right.operator) ≡ false
    → (is_lower right.operator && is_upper left.operator) ≡ false
    → numeric_conflict_reason left right ≡ none
unfolding numeric_conflict_reason turn
one_sided left right p q = rw (p, q)

conflict_one_way :
    (left right : Constraint) (l u x : Number) (reason : String)
    → (is_lower left.operator && is_upper right.operator) ≡ true
    → as_number left.value ≡ some l
    → as_number right.value ≡ some u
    → numeric_conflict_reason left right ≡ some reason
    → compare_numeric x left.operator l ≡ true
    → compare_numeric x right.operator u ≡ false
conflict_one_way left right l u x reason both a b e above =
    let p : is_lower left.operator ≡ true = ground arith in
    let q : is_upper right.operator ≡ true = ground arith in
    let clash : conflicting left.operator right.operator l u ≡ true =
      sym (bounds_some left right l u p q a b) ∙ ap is_some e in
    elim (Bool-cases (compare_numeric x right.operator u)) [
      | inl below ↦
          absurd (conflicting_sound left.operator right.operator l u x p q clash above below)
      | inr out ↦ out
    ]

-- Whatever conflict is reported is one: no number, infinite ones included, satisfies both
-- constraints.
pub numeric_conflict_sound :
    (left right : Constraint) (a b x : Number) (reason : String)
    → as_number left.value ≡ some a
    → as_number right.value ≡ some b
    → numeric_conflict_reason left right ≡ some reason
    → compare_numeric x left.operator a ≡ true
    → compare_numeric x right.operator b ≡ false
numeric_conflict_sound left right a b x reason na nb e h =
    elim (Bool-cases (is_lower left.operator && is_upper right.operator)) [
      | inl one ↦ conflict_one_way left right a b x reason one na nb e h
      | inr no_one ↦ elim (Bool-cases (is_lower right.operator && is_upper left.operator)) [
        | inl two ↦ elim (Bool-cases (compare_numeric x right.operator b)) [
          | inl k ↦ cc (
            conflict_one_way right left b a x reason two nb na
                (numeric_conflict_comm right left ∙ e) k,
            h,
          )
          | inr out ↦ out
        ]
        | inr no_two ↦ cc (one_sided left right no_one no_two, e)
      ]
    ]
