-- ===== src/Text/Norm/Laws.antt =====
-- What `_norm` of src/vcse/memory/world_state.py promises: a canonical form.
use Prim.Native.Char.{Char}
use Prim.Native.String.{[] as nil, ◌∷◌ as cons, ◌++◌}
use Prim.Native.String.append
use text.Mathlib.TextLemmas.{append-nil, append_assoc}
use vcse.Prelude.{
  String, true, false, ◌&&◌, ◌≡◌, refl, ap, sym, ◌∙◌, List, [], ◌∷◌, inl, inr, Bool-cases, All,
}
use vcse.Text.Norm.{
  is_space, is_blank, lstrip, rstrip, strip, put_word, split_from, split_from-blank,
  split_from-solid, split, join, norm,
}

abbrev Plain : String → Type 0
Plain nil = Unit
Plain (cons c s) = (is_space c ≡ false) × Plain s

-- A word: no whitespace in it, and at least one character.
abbrev IsWord : String → Type 0
IsWord w = Plain w × (is_blank w ≡ false)

Plain-snoc : (w : String) (c : Char) → Plain w → is_space c ≡ false → Plain (w ++ cons c nil)
Plain-snoc nil c p h = rw append.nil (h, tt)
Plain-snoc (cons d w) c p h = rw append.cons (p.0, Plain-snoc w c p.1 h)

put_word-All :
    (w : String) (ws : List String) → Plain w → All IsWord ws → All IsWord (put_word w ws)
put_word-All nil ws p h = h
put_word-All (cons c w) ws p h = ((p, refl), h)

split_from-All : (w s : String) → Plain w → All IsWord (split_from w s)
split_from-All w nil p = unfold split_from in put_word-All w [] p tt
split_from-All w (cons c s) p = elim (Bool-cases (is_space c)) [
  | inl e ↦
      rw (split_from-blank w c s e) (put_word-All w (split_from nil s) p (split_from-All nil s tt))
  | inr e ↦ rw (split_from-solid w c s e) (split_from-All (w ++ cons c nil) s (Plain-snoc w c p e))
]

snoc-append : (v : String) (c : Char) (w : String) → (v ++ cons c nil) ++ w ≡ v ++ cons c w
snoc-append v c w =
    rw (append_assoc v (cons c nil) w) (ap (λ t. v ++ t) (rw (append.cons, append.nil)))

split_from-append : (v w s : String) → Plain w → split_from v (w ++ s) ≡ split_from (v ++ w) s
split_from-append v nil s p = rw (append.nil, append-nil)
split_from-append v (cons c w) s p =
    rw (append.cons, split_from-solid v c (w ++ s) p.0)
      (split_from-append (v ++ cons c nil) w s p.1 ∙ ap (λ t. split_from t s) (snoc-append v c w))

put_word-cons : (w : String) (ws : List String) → is_blank w ≡ false → put_word w ws ≡ w ∷ ws
put_word-cons nil ws h = cc
put_word-cons (cons c w) ws h = refl

split_from-space : (w s : String) → IsWord w → split_from w (" " ++ s) ≡ w ∷ split_from nil s
unfolding split_from is_space
split_from-space w s h = rw (append.cons, append.nil) (put_word-cons w (split_from nil s) h.1)

split-join : (ws : List String) → All IsWord ws → split (join ws) ≡ ws
unfolding split join
split-join [] h = unfold split_from in refl
split-join (w ∷ []) h =
    ap (split_from nil) (sym (append-nil w))
    ∙ split_from-append nil w nil h.0.0
    ∙ rw append.nil (unfold split_from in put_word-cons w [] h.0.1)
split-join (w ∷ v ∷ ws) h =
    split_from-append nil w (" " ++ join (v ∷ ws)) h.0.0
    ∙ rw append.nil (split_from-space w (join (v ∷ ws)) h.0)
    ∙ ap (λ t. w ∷ t) (split-join (v ∷ ws) h.1)

split-lstrip : (s : String) → split_from nil (lstrip s) ≡ split_from nil s
unfolding lstrip
split-lstrip nil = refl
split-lstrip (cons c s) = elim (Bool-cases (is_space c)) [
  | inl e ↦ rw (e, split_from-blank nil c s e) (split-lstrip s)
  | inr e ↦ rw e
]

is_blank→nil : (s : String) → is_blank s ≡ true → s ≡ nil
is_blank→nil nil h = refl
is_blank→nil (cons c s) h = cc

nil-split : (w : String) → split_from w nil ≡ put_word w (split_from nil nil)
unfolding split_from
nil-split w = refl

rstrip-drop : (c : Char) (s : String) → is_space c ≡ true → rstrip s ≡ nil → rstrip (cons c s) ≡ nil
unfolding rstrip
rstrip-drop c s e b = rw (e, b)

rstrip-keep :
    (c : Char) (s : String)
    → (is_space c && is_blank (rstrip s)) ≡ false
    → rstrip (cons c s) ≡ cons c (rstrip s)
unfolding rstrip
rstrip-keep c s e = rw e

split-rstrip : (w s : String) → split_from w (rstrip s) ≡ split_from w s
split-rstrip w nil = unfold rstrip in refl
split-rstrip w (cons c s) = elim (Bool-cases (is_space c)) [
  | inl e ↦ elim (Bool-cases (is_blank (rstrip s))) [
    | inl b ↦
        let gone = is_blank→nil (rstrip s) b in
        rw (split_from-blank w c s e, ← split-rstrip nil s, rstrip-drop c s e gone, gone)
          (nil-split w)
    | inr b ↦
        rw
          (rstrip-keep c s (rw (e, b)), split_from-blank w c (rstrip s) e, split_from-blank w c s e)
          (ap (put_word w) (split-rstrip nil s))
  ]
  | inr e ↦
      rw (rstrip-keep c s (rw e), split_from-solid w c (rstrip s) e, split_from-solid w c s e)
        (split-rstrip (w ++ cons c nil) s)
]

pub split-strip : (s : String) → split (strip s) ≡ split s
unfolding split strip
split-strip s = split-rstrip nil (lstrip s) ∙ split-lstrip s

-- Normalising a text a second time changes nothing.
norm_idem : (s : String) → norm (norm s) ≡ norm s
unfolding norm
norm_idem s = ap join (
    split-strip (join (split (strip s)))
    ∙ split-join (split (strip s)) (unfold split in split_from-All nil (strip s) tt))
