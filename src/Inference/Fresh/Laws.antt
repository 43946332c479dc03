-- ===== src/Inference/Fresh/Laws.antt =====
-- What the loops of src/vcse/inference keep: the inferred claims have keys that are new and differ.
use text.Mathlib.TextEquality.{eq_iff}
use vcse.Prelude.{
  ◌≡◌, refl, sym, ap, ◌∙◌, subst, Bool, true, false, ◌||◌, ◌==◌, string_eq, ◌⊎◌, inl, inr, String,
  List, [], ◌∷◌, ◌++◌, map, Member, Member-append, Member-append_right, Member-append_cases, here,
  there, contains, if_both, arith, Bool-cases,
}
use vcse.Inference.Fresh.{Found, admit, admit_all}

-- No text stands twice.
abbrev pub IsDistinct : List String → Type 0
IsDistinct [] = Unit
IsDistinct (k ∷ ks) = (contains k ks ≡ false) × IsDistinct ks

contains-last :
    (a k : String) (ks : List String) → contains a (ks ++ k ∷ []) ≡ (contains a ks || k == a)
unfolding contains
contains-last a k [] = ground arith
contains-last a k (x ∷ ks) = ground (arith, contains-last a k ks)

IsDistinct-last :
    (k : String) (ks : List String)
    → IsDistinct ks
    → contains k ks ≡ false
    → IsDistinct (ks ++ k ∷ [])
unfolding contains
IsDistinct-last k [] d new = (refl, tt)
IsDistinct-last k (x ∷ ks) (n, d) new = (
  ground (arith, contains-last x k ks, n, new, eq_iff x k, eq_iff k x),
  IsDistinct-last k ks d (ground (arith, new)),
)

module _ {C : Type 0} (key : C → String) (explicit_keys : List String) where
  map-last : (c : C) (cs : List C) → map key (cs ++ c ∷ []) ≡ map key cs ++ key c ∷ []
  map-last c [] = refl
  map-last c (x ∷ cs) = ap (λ ks. key x ∷ ks) (map-last c cs)

  -- The keys are those of the inferred claims, they differ, and none is explicit.
  pub record IsFresh (s : Found C) : Type 0 where
    pub keys_eq : s.inferred_keys ≡ map key s.inferred
    pub distinct : IsDistinct s.inferred_keys
    pub fresh : (k : String) → contains k s.inferred_keys ≡ true → contains k explicit_keys ≡ false

  pub start-IsFresh : IsFresh (record { inferred = []; inferred_keys = [] })
  unfolding contains
  start-IsFresh = record { keys_eq = refl; distinct = tt; fresh = λ k h. cc }

  -- What the loop does with the candidates `cs`
  pub record IsAdmitted (cs : List C) (s t : Found C) : Type 0 where
    pub kept : IsFresh t
    pub grows : (k : String) → contains k s.inferred_keys ≡ true → contains k t.inferred_keys ≡ true
    pub sound : (x : C) → Member x t.inferred → Member x s.inferred ⊎ Member x cs
    pub complete :
        (c : C)
        → Member c cs
        → (contains (key c) explicit_keys ≡ true) ⊎ (contains (key c) t.inferred_keys ≡ true)

  pub none-IsAdmitted : (s : Found C) → IsFresh s → IsAdmitted [] s s
  none-IsAdmitted s f = record {
    kept = f;
    grows = λ k h. h;
    sound = λ x m. inl m;
    complete = λ c m. elim m [ ];
  }

  module _ (c : C) (s : Found C) (f : IsFresh s) where
    abbrev t : Found C
    t = record { inferred = s.inferred ++ c ∷ []; inferred_keys = s.inferred_keys ++ key c ∷ [] }

    new-IsFresh :
        contains (key c) explicit_keys ≡ false
        → contains (key c) s.inferred_keys ≡ false
        → IsFresh t
    new-IsFresh e n = record {
      keys_eq = ap (λ ks. ks ++ key c ∷ []) f.keys_eq ∙ sym (map-last c s.inferred);
      distinct = IsDistinct-last (key c) s.inferred_keys f.distinct n;
      fresh = λ k h. by_last k (sym (contains-last k (key c) s.inferred_keys) ∙ h);
    }
      where
        by_last :
            (k : String)
            → (contains k s.inferred_keys || key c == k) ≡ true
            → contains k explicit_keys ≡ false
        by_last k h = elim (Bool-cases (contains k s.inferred_keys)) [
          | inl old ↦ f.fresh k old
          | inr other ↦
              subst (λ x. contains x explicit_keys ≡ false)
                ((eq_iff (key c) k).0 (ground (arith, h, other))) e
        ]

    pub admit-IsAdmitted : IsAdmitted (c ∷ []) s (admit key explicit_keys c s)
    unfolding admit
    admit-IsAdmitted =
        if_both (IsAdmitted (c ∷ []) s)
          (contains (key c) explicit_keys || contains (key c) s.inferred_keys) s t
          (λ h. record {
            kept = f;
            grows = λ k m. m;
            sound = λ x m. inl m;
            complete = λ x m.
                only
                  (λ y.
                    (contains (key y) explicit_keys ≡ true)
                    ⊎ (contains (key y) s.inferred_keys ≡ true))
                  x m (either _ _ h);
          })
          (λ h. record {
            kept = new-IsFresh (ground (arith, h)) (ground (arith, h));
            grows = λ k m. contains-last k (key c) s.inferred_keys ∙ ground (arith, m);
            sound = λ x m. Member-append_cases x s.inferred (c ∷ []) m;
            complete = λ x m.
                only
                  (λ y.
                    (contains (key y) explicit_keys ≡ true)
                    ⊎ (contains (key y) t.inferred_keys ≡ true))
                  x m
                  (inr (
                    contains-last (key c) (key c) s.inferred_keys
                    ∙ ground (arith, eq_iff (key c) (key c))));
          })
      where
        only : (P : C → Type 0) (x : C) → Member x (c ∷ []) → P c → P x
        only P x (here _ _ e) p = subst P e p
        only P x (there _ _ m) p = elim m [ ]

        either : (a b : Bool) → (a || b) ≡ true → (a ≡ true) ⊎ (b ≡ true)
        either true b h = inl refl
        either false b h = inr h

  pub append-IsAdmitted :
      (cs ds : List C) (s t u : Found C)
      → IsAdmitted cs s t
      → IsAdmitted ds t u
      → IsAdmitted (cs ++ ds) s u
  append-IsAdmitted cs ds s t u h k = record {
    kept = k.kept;
    grows = λ x m. k.grows x (h.grows x m);
    sound = λ x m. elim (k.sound x m) [
      | inr late ↦ inr (Member-append_right x cs ds late)
      | inl early ↦ elim (h.sound x early) [
        | inl before ↦ inl before
        | inr now ↦ inr (Member-append x cs ds now)
      ]
    ];
    complete = λ c m. elim (Member-append_cases c cs ds m) [
      | inr late ↦ k.complete c late
      | inl early ↦ elim (h.complete c early) [ inl e ↦ inl e | inr n ↦ inr (k.grows (key c) n) ]
    ];
  }

  pub admit_all-IsAdmitted :
      (cs : List C) (s : Found C) → IsFresh s → IsAdmitted cs s (admit_all key explicit_keys cs s)
  unfolding admit_all
  admit_all-IsAdmitted [] s f = none-IsAdmitted s f
  admit_all-IsAdmitted (c ∷ cs) s f =
      let t = admit key explicit_keys c s in
      let h = admit-IsAdmitted c s f in
      append-IsAdmitted (c ∷ []) cs s t (admit_all key explicit_keys cs t) h
        (admit_all-IsAdmitted cs t h.kept)

  -- The claims that are inferred from the candidates `cs`: their keys are new and differ, each is a
  -- candidate, and the key of each candidate is that of a claim that is stored or inferred.
  pub record IsInferred (cs inferred : List C) : Type 0 where
    pub distinct : IsDistinct (map key inferred)
    pub fresh :
        (k : String) → contains k (map key inferred) ≡ true → contains k explicit_keys ≡ false
    pub sound : (x : C) → Member x inferred → Member x cs
    pub complete :
        (c : C)
        → Member c cs
        → (contains (key c) explicit_keys ≡ true) ⊎ (contains (key c) (map key inferred) ≡ true)

  pub admitted-IsInferred :
      (cs : List C) (t : Found C)
      → IsAdmitted cs (record { inferred = []; inferred_keys = [] }) t
      → IsInferred cs t.inferred
  admitted-IsInferred cs t h = record {
    distinct = subst IsDistinct h.kept.keys_eq h.kept.distinct;
    fresh = λ k m. h.kept.fresh k (ap (contains k) h.kept.keys_eq ∙ m);
    sound = λ x m. elim (h.sound x m) [ inl e ↦ elim e [ ] | inr k ↦ k ];
    complete = λ c m. elim (h.complete c m) [
      | inl e ↦ inl e
      | inr n ↦ inr (sym (ap (contains (key c)) h.kept.keys_eq) ∙ n)
    ];
  }
