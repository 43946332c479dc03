-- ===== src/Ledger/Merkle/Binding.antt =====
-- The Merkle root of src/vcse/ledger/merkle.py is found, and fixes the hashes that it is made of.
use Prim.Native.Char.{Char}
use Prim.Native.String.{[] as nil, ◌∷◌ as cons, ◌++◌ as append}
use Prim.Native.String.append.{nil as append-nil_left, cons as append-cons}
use vcse.Prelude.{
  map, Member, here, there, subst, ℕ, zero, suc, ◌≤◌, ◌≡◌, ◌≢◌, refl, sym, ap, ◌∙◌, ◌⊎◌, inl, inr,
  String, string_eq, some, List, [], ◌∷◌, length, All, arith, eq_cases, some_eq, list_head,
  list_tail,
}
use vcse.Ledger.Merkle.{next_level, climb, build_merkle_root}

-- `len(text)`
unfoldable pub chars : String → ℕ
chars nil = 0
chars (cons c s) = suc (chars s)

-- Two texts are put before others; the first ones are equally long.
append_cancel : (x u y v : String) → chars x ≡ chars u → append x y ≡ append u v → (x ≡ u) × (y ≡ v)
unfolding chars
append_cancel nil nil y v h e = (refl, sym (append-nil_left y) ∙ e ∙ append-nil_left v)
append_cancel nil (cons d u) y v h e = absurd (omega (arith, h))
append_cancel (cons c x) nil y v h e = absurd (omega (arith, h))
append_cancel (cons c x) (cons d u) y v h e =
    let (same, rest) = cons_eq c d _ _ (sym (append-cons c x y) ∙ e ∙ append-cons d u v) in
    let (p, q) = append_cancel x u y v (omega (arith, h)) rest in (put_before c d x u same p, q)
  where
    cons_eq : (a b : Char) (s t : String) → cons a s ≡ cons b t → (a ≡ b) × (s ≡ t)
    cons_eq a b s t k = (cc, cc)

    put_before : (a b : Char) (s t : String) → a ≡ b → s ≡ t → cons a s ≡ cons b t
    put_before a b s t k l = cc

next_level-shorter :
    (sha : String → String) (a b : String) (level : List String)
    → length (next_level sha (a ∷ b ∷ level)) ≤ suc (length level)
unfolding next_level
next_level-shorter sha a b [] = omega arith
next_level-shorter sha a b (c ∷ []) = omega arith
next_level-shorter sha a b (c ∷ d ∷ level) = omega (arith, next_level-shorter sha c d level)

-- The texts that a level is hashed in: those of its pairs, an odd last one paired with itself
unfoldable pub pair_texts : List String → List String
pair_texts [] = []
pair_texts (x ∷ []) = append x x ∷ []
pair_texts (x ∷ y ∷ xs) = append x y ∷ pair_texts xs

module _ (sha256_hex : String → String) where
  -- The levels over a list of leaves: each has the hashes of the texts of the one below it.
  pub data IsLevel (leaves : List String) : List String → Type 0 where
    leaf_level : IsLevel leaves leaves
    next :
        (level : List String)
        → IsLevel leaves level
        → IsLevel leaves (map sha256_hex (pair_texts level))

  -- Two different texts with one hash, among those of two levels
  pub record IsClash (xs ys : List String) : Type 0 where
    pub left : String
    pub right : String
    pub left_there : Member left (pair_texts xs)
    pub right_there : Member right (pair_texts ys)
    pub differ : left ≢ right
    pub collide : sha256_hex left ≡ sha256_hex right

  -- The same of two levels over the leaves `us` and `vs`
  pub record Collision (us vs : List String) : Type 0 where
    pub left_level : List String
    pub right_level : List String
    pub left_over : IsLevel us left_level
    pub right_over : IsLevel vs right_level
    pub clash : IsClash left_level right_level

  next_level-texts : (xs : List String) → next_level sha256_hex xs ≡ map sha256_hex (pair_texts xs)
  unfolding next_level pair_texts
  next_level-texts [] = refl
  next_level-texts (x ∷ []) = refl
  next_level-texts (x ∷ y ∷ xs) = ap (λ ls. sha256_hex (append x y) ∷ ls) (next_level-texts xs)

  or_IsClash :
      (x y : String) (xs ys us vs : List String)
      → x ∷ us ≡ pair_texts xs
      → y ∷ vs ≡ pair_texts ys
      → sha256_hex x ≡ sha256_hex y
      → (x ≡ y) ⊎ IsClash xs ys
  or_IsClash x y xs ys us vs at at' h = elim (eq_cases x y) [
    | inl same ↦ inl same
    | inr other ↦ inr (record {
      left = x;
      right = y;
      left_there = subst (Member x) at (here x us refl);
      right_there = subst (Member y) at' (here y vs refl);
      differ = other;
      collide = h;
    })
  ]

  later-IsClash :
      (x w y z : String) (xs ys : List String) → IsClash xs ys → IsClash (x ∷ w ∷ xs) (y ∷ z ∷ ys)
  unfolding pair_texts
  later-IsClash x w y z xs ys c = record {
    left = c.left;
    right = c.right;
    left_there = there (append x w) (pair_texts xs) c.left_there;
    right_there = there (append y z) (pair_texts ys) c.right_there;
    differ = c.differ;
    collide = c.collide;
  }

  -- With a fuel that is no smaller than the level, the loop ends in a root.
  climb-root :
      (fuel : ℕ) (h : String) (level : List String)
      → length (h ∷ level) ≤ fuel
      → (root : String) × (climb sha256_hex fuel (h ∷ level) ≡ some root)
  unfolding climb next_level
  climb-root zero h level b = absurd (omega (arith, b))
  climb-root (suc fuel) h [] b = (h, refl)
  climb-root (suc fuel) a (c ∷ []) b =
      climb-root fuel (sha256_hex (append a c)) [] (omega (arith, b))
  climb-root (suc fuel) a (c ∷ d ∷ level) b =
      climb-root fuel (sha256_hex (append a c)) (next_level sha256_hex (d ∷ level))
        (omega (arith, b, next_level-shorter sha256_hex a c (d ∷ level)))

  module _ (size : ℕ) (is_digest : (x : String) → chars (sha256_hex x) ≡ size) where
    abbrev pub AreDigests : List String → Type 0
    AreDigests xs = All (λ x. chars x ≡ size) xs

    next_level-AreDigests : (xs : List String) → AreDigests (next_level sha256_hex xs)
    unfolding next_level
    next_level-AreDigests [] = tt
    next_level-AreDigests (x ∷ []) = (is_digest (append x x), tt)
    next_level-AreDigests (x ∷ y ∷ xs) = (is_digest (append x y), next_level-AreDigests xs)

    -- One level fixes the level below, or shows a collision.
    level_fixes :
        (xs ys : List String)
        → length xs ≡ length ys
        → AreDigests xs
        → AreDigests ys
        → next_level sha256_hex xs ≡ next_level sha256_hex ys
        → (xs ≡ ys) ⊎ IsClash xs ys
    unfolding next_level pair_texts
    level_fixes [] [] n dx dy e = inl refl
    level_fixes [] (y ∷ ys) n dx dy e = absurd (omega (arith, n))
    level_fixes (x ∷ xs) [] n dx dy e = absurd (omega (arith, n))
    level_fixes (x ∷ []) (y ∷ []) n (dx, _) (dy, _) e =
        elim (or_IsClash (append x x) (append y y) (x ∷ []) (y ∷ []) [] [] refl refl
          (list_head e)) [
            | inr c ↦ inr c
            | inl same ↦
                let (p, q) = append_cancel x y x y (dx ∙ sym dy) same in inl (ap (λ z. z ∷ []) p)
          ]
    level_fixes (x ∷ []) (y ∷ z ∷ ys) n dx dy e = absurd (omega (arith, n))
    level_fixes (x ∷ w ∷ xs) (y ∷ []) n dx dy e = absurd (omega (arith, n))
    level_fixes (x ∷ w ∷ xs) (y ∷ z ∷ ys) n (dx, (dw, dxs)) (dy, (dz, dys)) e =
        elim (or_IsClash (append x w) (append y z) (x ∷ w ∷ xs) (y ∷ z ∷ ys) (pair_texts xs)
          (pair_texts ys) refl refl (list_head e)) [
            | inr c ↦ inr c
            | inl same ↦ elim (level_fixes xs ys (omega (arith, n)) dxs dys (list_tail e)) [
              | inr c ↦ inr (later-IsClash x w y z xs ys c)
              | inl rest ↦
                  let (p, q) = append_cancel x y w z (dx ∙ sym dy) same in inl (three p q rest)
            ]
          ]
      where
        three : x ≡ y → w ≡ z → xs ≡ ys → x ∷ w ∷ xs ≡ y ∷ z ∷ ys
        three p q r = cc

    next_level-length :
        (xs ys : List String)
        → length xs ≡ length ys
        → length (next_level sha256_hex xs) ≡ length (next_level sha256_hex ys)
    unfolding next_level
    next_level-length [] [] n = refl
    next_level-length [] (y ∷ ys) n = absurd (omega (arith, n))
    next_level-length (x ∷ xs) [] n = absurd (omega (arith, n))
    next_level-length (x ∷ []) (y ∷ []) n = refl
    next_level-length (x ∷ []) (y ∷ z ∷ ys) n = absurd (omega (arith, n))
    next_level-length (x ∷ w ∷ xs) (y ∷ []) n = absurd (omega (arith, n))
    next_level-length (x ∷ w ∷ xs) (y ∷ z ∷ ys) n =
        ap suc (next_level-length xs ys (omega (arith, n)))

    climb_fixes :
        (fuel : ℕ) (leaves leaves' xs ys : List String) (root : String)
        → IsLevel leaves xs
        → IsLevel leaves' ys
        → length xs ≡ length ys
        → AreDigests xs
        → AreDigests ys
        → climb sha256_hex fuel xs ≡ some root
        → climb sha256_hex fuel ys ≡ some root
        → (xs ≡ ys) ⊎ Collision leaves leaves'
    unfolding climb
    climb_fixes zero ls ls' xs ys root l l' n dx dy h k = cc
    climb_fixes (suc fuel) ls ls' [] ys root l l' n dx dy h k = cc
    climb_fixes (suc fuel) ls ls' (x ∷ xs) [] root l l' n dx dy h k = cc
    climb_fixes (suc fuel) ls ls' (x ∷ []) (y ∷ []) root l l' n dx dy h k =
        inl (ap (λ z. z ∷ []) (some_eq (h ∙ sym k)))
    climb_fixes (suc fuel) ls ls' (x ∷ []) (y ∷ z ∷ ys) root l l' n dx dy h k =
        absurd (omega (arith, n))
    climb_fixes (suc fuel) ls ls' (x ∷ w ∷ xs) (y ∷ []) root l l' n dx dy h k =
        absurd (omega (arith, n))
    climb_fixes (suc fuel) ls ls' (x ∷ w ∷ xs) (y ∷ z ∷ ys) root l l' n dx dy h k =
        let us = x ∷ w ∷ xs in
        let vs = y ∷ z ∷ ys in
        elim (climb_fixes fuel ls ls' (next_level sha256_hex us) (next_level sha256_hex vs) root
          (subst (IsLevel ls) (sym (next_level-texts us)) (next us l))
          (subst (IsLevel ls') (sym (next_level-texts vs)) (next vs l')) (next_level-length us vs n)
          (next_level-AreDigests us) (next_level-AreDigests vs) h k) [
            | inr c ↦ inr c
            | inl same ↦ elim (level_fixes us vs n dx dy same) [
              | inl equal ↦ inl equal
              | inr c ↦ inr (record {
                left_level = us;
                right_level = vs;
                left_over = l;
                right_over = l';
                clash = c;
              })
            ]
          ]

    -- With digests of one size, a root is built, and two lists of equally many digests for which the
    -- same root is built are equal, or two different texts have one digest, one of them a pair that
    -- is hashed at some level over the first list, the other one over the second.
    pub build_merkle_root_fixes :
        (xs ys : List String)
        → length xs ≡ length ys
        → AreDigests xs
        → AreDigests ys
        → ((root : String) × (build_merkle_root sha256_hex xs ≡ some root))
          × (build_merkle_root sha256_hex xs ≡ build_merkle_root sha256_hex ys
              → (xs ≡ ys) ⊎ Collision xs ys)
    unfolding build_merkle_root
    build_merkle_root_fixes [] [] n dx dy = ((sha256_hex "", refl), λ e. inl refl)
    build_merkle_root_fixes [] (y ∷ ys) n dx dy = absurd (omega (arith, n))
    build_merkle_root_fixes (x ∷ xs) [] n dx dy = absurd (omega (arith, n))
    build_merkle_root_fixes (x ∷ xs) (y ∷ ys) n dx dy =
        let (root, at) = climb-root (length (x ∷ xs)) x xs (omega arith) in
        (
          (root, at),
          λ e.
              climb_fixes (length (x ∷ xs)) (x ∷ xs) (y ∷ ys) (x ∷ xs) (y ∷ ys) root leaf_level
                leaf_level n dx dy at (ap (λ f. climb sha256_hex f (y ∷ ys)) n ∙ sym e ∙ at),
        )
