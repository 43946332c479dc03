-- ===== src/Text/Decimal.antt =====
-- Python's `str(n)` for a natural number, as it stands in element ids such as f"claim:{n}".
use Prim.Native.Char.{Char, code}
use Prim.Native.String.{[], ◌∷◌, ◌++◌}
use Prim.Native.String.append
use vcse.Prelude.{
  ℕ, zero, suc, String, ◌+◌, ◌-◌, ◌*◌, ◌/◌, ◌%◌, ◌≤◌, ◌<◌, ◌≡◌, refl, ap, sym, ◌∙◌, arith, ltb,
  nat_eq, if◌then◌else◌, Bool-cases, inl, inr,
}

digit : ℕ → Char
digit zero = "0"
digit (suc zero) = "1"
digit (suc (suc zero)) = "2"
digit (suc (suc (suc zero))) = "3"
digit (suc (suc (suc (suc zero)))) = "4"
digit (suc (suc (suc (suc (suc zero))))) = "5"
digit (suc (suc (suc (suc (suc (suc zero)))))) = "6"
digit (suc (suc (suc (suc (suc (suc (suc zero))))))) = "7"
digit (suc (suc (suc (suc (suc (suc (suc (suc zero)))))))) = "8"
digit _ = "9"

code-digit : (d : ℕ) → d < 10 → code (digit d) - 48 ≡ d
unfolding digit
code-digit zero h = refl
code-digit (suc zero) h = refl
code-digit (suc (suc zero)) h = refl
code-digit (suc (suc (suc zero))) h = refl
code-digit (suc (suc (suc (suc zero)))) h = refl
code-digit (suc (suc (suc (suc (suc zero))))) h = refl
code-digit (suc (suc (suc (suc (suc (suc zero)))))) h = refl
code-digit (suc (suc (suc (suc (suc (suc (suc zero))))))) h = refl
code-digit (suc (suc (suc (suc (suc (suc (suc (suc zero)))))))) h = refl
code-digit (suc (suc (suc (suc (suc (suc (suc (suc (suc zero))))))))) h = refl
code-digit (suc (suc (suc (suc (suc (suc (suc (suc (suc (suc n)))))))))) h = absurd (omega arith)

-- The digits of `n`, most significant first. The fuel `n` is enough, since each round divides by ten.
emit : ℕ → ℕ → String
unfolding digit
emit zero n = digit (n % 10) ∷ []
emit (suc fuel) n =
    let rest = emit fuel (n / 10) ++ (digit (n % 10) ∷ []) in
    if ltb n 10 then digit (n % 10) ∷ [] else rest

unfoldable pub show : ℕ → String
unfolding emit
show n = emit n n

value_from : ℕ → String → ℕ
value_from v [] = v
value_from v (c ∷ s) = value_from (v * 10 + (code c - 48)) s

value_from-snoc :
    (v : ℕ) (s : String) (c : Char)
    → value_from v (s ++ (c ∷ [])) ≡ value_from v s * 10 + (code c - 48)
unfolding value_from
value_from-snoc v [] c = rw append.nil
value_from-snoc v (d ∷ s) c = rw append.cons (value_from-snoc (v * 10 + (code d - 48)) s c)

value-emit : (fuel n : ℕ) → n ≤ fuel → value_from 0 (emit fuel n) ≡ n
unfolding emit value_from
value-emit zero n h = rw (code-digit (n % 10) (omega arith)) (omega arith)
value-emit (suc fuel) n h = elim (Bool-cases (ltb n 10)) [
  | inl small ↦ rw small (rw (code-digit (n % 10) (omega arith)) (ground arith))
  | inr big ↦
      rw (big, value_from-snoc 0 (emit fuel (n / 10)) (digit (n % 10)))
        (rw (code-digit (n % 10) (omega arith))
          (omega (arith, value-emit fuel (n / 10) (ground arith))))
]

-- Different numbers have different numerals.
pub show-injective : (m n : ℕ) → show m ≡ show n → m ≡ n
unfolding show
show-injective m n e =
    sym (value-emit m m (omega arith)) ∙ ap (value_from 0) e ∙ value-emit n n (omega arith)

show_test : show 1205 ≡ "1205"
unfolding show
show_test = refl
