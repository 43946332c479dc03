-- ===== src/Text/Order.antt =====
-- The order of strings (`a < b` in Python) has no cycle of two.
use Prim.Native.Nat.{Ordering, compare as compare_ℕ}
use Prim.Native.Nat.compare as compare_ℕ
use Prim.Native.String.{compare, then, [] as nil, ◌∷◌ as cons}
use Prim.Native.String.compare
use Prim.Native.Char.{code}
use vcse.Prelude.{ℕ, zero, suc, ◌≡◌, refl, sym, ap, ◌∙◌, String, true, false}
use vcse.Text.Parts.{str_lt}

abbrev flip : Ordering → Ordering
flip Ordering.lt = Ordering.gt
flip Ordering.eq = Ordering.eq
flip Ordering.gt = Ordering.lt

compare_flip_ℕ : (m n : ℕ) → compare_ℕ n m ≡ flip (compare_ℕ m n)
compare_flip_ℕ zero zero = compare_ℕ.zero-zero ∙ ap flip (sym compare_ℕ.zero-zero)
compare_flip_ℕ zero (suc n) = compare_ℕ.suc-zero n ∙ ap flip (sym (compare_ℕ.zero-suc n))
compare_flip_ℕ (suc m) zero = compare_ℕ.zero-suc m ∙ ap flip (sym (compare_ℕ.suc-zero m))
compare_flip_ℕ (suc m) (suc n) =
    compare_ℕ.suc-suc n m ∙ compare_flip_ℕ m n ∙ ap flip (sym (compare_ℕ.suc-suc m n))

then-flip : (o p : Ordering) → then (flip o) (flip p) ≡ flip (then o p)
unfolding then
then-flip Ordering.lt p = refl
then-flip Ordering.eq p = refl
then-flip Ordering.gt p = refl

compare-flip : (s t : String) → compare t s ≡ flip (compare s t)
compare-flip nil nil = compare.nil-nil ∙ ap flip (sym compare.nil-nil)
compare-flip nil (cons d t) = compare.cons-nil d t ∙ ap flip (sym (compare.nil-cons d t))
compare-flip (cons c s) nil = compare.nil-cons c s ∙ ap flip (sym (compare.cons-nil c s))
compare-flip (cons c s) (cons d t) =
    compare.cons-cons d c t s
    ∙ ap (λ o. then o (compare t s)) (compare_flip_ℕ (code c) (code d))
    ∙ ap (then (flip (compare_ℕ (code c) (code d)))) (compare-flip s t)
    ∙ then-flip (compare_ℕ (code c) (code d)) (compare s t)
    ∙ ap flip (sym (compare.cons-cons c d s t))

pub str_lt_asym : (s t : String) → str_lt s t ≡ true → str_lt t s ≡ false
unfolding str_lt
str_lt_asym s t h = by_order (compare s t) (compare t s) (compare-flip s t) h
  where
    by_order :
        (o p : Ordering)
        → p ≡ flip o
        → (elim o [ Ordering.lt ↦ true | _ ↦ false ]) ≡ true
        → (elim p [ Ordering.lt ↦ true | _ ↦ false ]) ≡ false
    by_order Ordering.lt p e k = ap (λ q. elim q [ Ordering.lt ↦ true | _ ↦ false ]) e
    by_order Ordering.eq p e k = cc
    by_order Ordering.gt p e k = cc
