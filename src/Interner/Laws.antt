-- ===== src/Interner/Laws.antt =====
-- What `Interner` (src/vcse/compression/interner.py) promises of its ids.
use vcse.Prelude.{
  ℕ, ◌+◌, ◌<◌, String, string_eq, nat_eq, ◌≡◌, ◌≢◌, refl, ap, ◌∙◌, subst, Option, none, some, [],
  ◌∷◌, length, length-append, inl, inr, arith,
}
use vcse.Dict.{get, set}
use vcse.Dict.Laws.{get-set_self, get-set_ne, get-set_cases, set-append}
use vcse.Interner.{Interner, empty_interner, intern_at, intern, resolve}

-- The two tables agree, and ids stay below the size.
pub record IsConsistent (t : Interner) : Type 0 where
  pub back : (v : String) (i : ℕ) → get t.s2i v ≡ some i → get t.i2s i ≡ some v
  pub below : (v : String) (i : ℕ) → get t.s2i v ≡ some i → i < length t.s2i

-- The texts interned one after the other, from the empty interner on
pub data Interned : Interner → Type 0 where
  empty : Interned empty_interner
  added : {t : Interner} → Interned t → (v : String) → Interned (intern t v).0

module _ (t : Interner) (w : IsConsistent t) (v : String) (new : get t.s2i v ≡ none) where
  length-set : length (set t.s2i v (length t.s2i)) ≡ length t.s2i + 1
  length-set =
      ap length (set-append t.s2i v (length t.s2i) new)
      ∙ length-append t.s2i ((v, length t.s2i) ∷ [])

  added-IsConsistent :
      IsConsistent (record { s2i = set t.s2i v (length t.s2i); i2s = set t.i2s (length t.s2i) v })
  added-IsConsistent = record { back = back; below = below }
    where
      back :
          (u : String) (i : ℕ)
          → get (set t.s2i v (length t.s2i)) u ≡ some i
          → get (set t.i2s (length t.s2i) v) i ≡ some u
      back u i e = elim (get-set_cases t.s2i v u (length t.s2i) i e) [
        | inl (same, at) ↦
            subst (λ x. get (set t.i2s (length t.s2i) v) x ≡ some u) at
              (get-set_self t.i2s (length t.s2i) v ∙ ap some same)
        | inr (other, at) ↦
            get-set_ne t.i2s (length t.s2i) i v (λ q. apart i (w.below u i at) q) ∙ w.back u i at
      ]
        where
          apart : (j : ℕ) → j < length t.s2i → length t.s2i ≢ j
          apart j h q = omega arith

      below :
          (u : String) (i : ℕ)
          → get (set t.s2i v (length t.s2i)) u ≡ some i
          → i < length (set t.s2i v (length t.s2i))
      below u i e = elim (get-set_cases t.s2i v u (length t.s2i) i e) [
        | inl (same, at) ↦ omega (arith, length-set)
        | inr (other, at) ↦ omega (arith, length-set, w.below u i at)
      ]

intern_at-IsConsistent :
    (t : Interner) (v : String) (o : Option ℕ)
    → get t.s2i v ≡ o
    → IsConsistent t
    → IsConsistent (intern_at t v o).0
unfolding intern_at
intern_at-IsConsistent t v (some i) e w = w
intern_at-IsConsistent t v none e w = added-IsConsistent t w v e

pub Interned-IsConsistent : {t : Interner} → Interned t → IsConsistent t
unfolding intern get
Interned-IsConsistent empty = record { back = λ v i e. cc; below = λ v i e. cc }
Interned-IsConsistent (added {t = t} h v) =
    intern_at-IsConsistent t v (get t.s2i v) refl (Interned-IsConsistent h)

-- In an interner that texts were interned in from the empty one on, the id that a text is interned
-- under resolves to the text.
pub resolve-intern :
    {t : Interner} → Interned t → (v : String) → resolve (intern t v).0 (intern t v).1 ≡ some v
unfolding intern resolve
resolve-intern {t = t} h v = resolved (get t.s2i v) refl
  where
    resolved :
        (o : Option ℕ) → get t.s2i v ≡ o → get (intern_at t v o).0.i2s (intern_at t v o).1 ≡ some v
    resolved (some i) e = (Interned-IsConsistent h).back v i e
    resolved none e = get-set_self t.i2s (length t.s2i) v

module _ (t : Interner) (v : String) where
  known :
      (o : Option ℕ) → get t.s2i v ≡ o → get (intern_at t v o).0.s2i v ≡ some (intern_at t v o).1
  unfolding intern_at
  known (some i) e = e
  known none e = get-set_self t.s2i v (length t.s2i)

  kept :
      (u : String) (i : ℕ)
      → get t.s2i v ≡ some i
      → (o : Option ℕ) → get t.s2i u ≡ o
      → get (intern_at t u o).0.s2i v ≡ some i
  unfolding intern_at
  kept u i e (some j) at = e
  kept u i e none at = get-set_ne t.s2i u v (length t.s2i) (λ q. cc (ap (get t.s2i) q, e, at)) ∙ e

-- A text keeps its id, whatever other text is interned in between.
pub intern_keeps :
    (t : Interner) (v u : String) → (intern (intern (intern t v).0 u).0 v).1 ≡ (intern t v).1
unfolding intern
intern_keeps t v u =
    ap (λ o. (intern_at (intern (intern t v).0 u).0 v o).1)
      (kept (intern t v).0 v u (intern t v).1 (known t v (get t.s2i v) refl)
        (get (intern t v).0.s2i u) refl)
    ∙ found (intern (intern t v).0 u).0 (intern t v).1
  where
    found : (s : Interner) (i : ℕ) → (intern_at s v (some i)).1 ≡ i
    found s i = refl
