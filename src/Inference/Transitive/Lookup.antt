-- ===== src/Inference/Transitive/Lookup.antt =====
-- The index of `infer_transitive_claims` (src/vcse/inference/transitive.py) holds the claims under
-- their keys, and nothing else.
use vcse.Prelude.{
  ◌≡◌, refl, sym, ap, ◌∙◌, subst, string_eq, pair_eq, ◌⊎◌, ◌≢◌, inl, inr, String, List, [], ◌∷◌,
  Member, here, there, Member-append, Member-append_cases, Member-last, eq_cases,
}
use vcse.Dict.{set}
use vcse.Dict.Laws.{get-set_self, get-set_ne}
use vcse.Inference.{KnowledgeClaim}
use vcse.Inference.Transitive.{Index, look, index_key, index_claims}

look-set_self :
    (d : Index) (k : String × String) (cs : List KnowledgeClaim) → look (set d k cs) k ≡ cs
unfolding look
look-set_self d k cs = rw (get-set_self d k cs, look) refl

look-set_at :
    (d : Index) (k j : String × String) (cs : List KnowledgeClaim)
    → k ≡ j
    → look (set d k cs) j ≡ cs
look-set_at d k j cs e = ap (look (set d k cs)) (sym e) ∙ look-set_self d k cs

look-set_ne :
    (d : Index) (k j : String × String) (cs : List KnowledgeClaim)
    → k ≢ j
    → look (set d k cs) j ≡ look d j
unfolding look
look-set_ne d k j cs h = rw (get-set_ne d k j cs h, look) refl

module _ (lower : String → String) where
  -- The index holds what it held, and the claims under their keys.
  pub index-grows :
      (cs : List KnowledgeClaim) (d : Index) (j : String × String) (x : KnowledgeClaim)
      → Member x (look d j)
      → Member x (look (index_claims lower cs d) j)
  unfolding index_claims
  index-grows [] d j x m = m
  index-grows (c ∷ cs) d j x m = index-grows cs _ j x (elim (eq_cases (index_key lower c) j) [
    | inl same ↦ subst (Member x) (sym (look-set_at d (index_key lower c) j _ same)) (
        Member-append x (look d (index_key lower c)) (c ∷ [])
          (subst (λ k. Member x (look d k)) (sym same) m))
    | inr other ↦ subst (Member x) (sym (look-set_ne d (index_key lower c) j _ other)) m
  ])

  pub index-has :
      (cs : List KnowledgeClaim) (d : Index) (x : KnowledgeClaim)
      → Member x cs
      → Member x (look (index_claims lower cs d) (index_key lower x))
  unfolding index_claims
  index-has [] d x m = elim m [ ]
  index-has (c ∷ cs) d x (there _ _ m) = index-has cs _ x m
  index-has (c ∷ cs) d x (here _ _ e) =
      subst (λ z. Member z (look (index_claims lower (c ∷ cs) d) (index_key lower z))) e
        (index-grows cs _ (index_key lower c) c (
          subst (Member c) (sym (look-set_self d (index_key lower c) _))
            (Member-last c (look d (index_key lower c)))))

  pub index-only :
      (cs : List KnowledgeClaim) (d : Index) (j : String × String) (x : KnowledgeClaim)
      → Member x (look (index_claims lower cs d) j)
      → Member x (look d j) ⊎ (Member x cs × (index_key lower x ≡ j))
  unfolding index_claims
  index-only [] d j x m = inl m
  index-only (c ∷ cs) d j x m = elim (index-only cs _ j x m) [
    | inr (n, e) ↦ inr (there c cs n, e)
    | inl n ↦ elim (eq_cases (index_key lower c) j) [
      | inr other ↦ inl (subst (Member x) (look-set_ne d (index_key lower c) j _ other) n)
      | inl same ↦
          elim (Member-append_cases x (look d (index_key lower c)) (c ∷ [])
            (subst (Member x) (look-set_at d (index_key lower c) j _ same) n)) [
              | inl old ↦ inl (subst (λ k. Member x (look d k)) same old)
              | inr now ↦ inr (last_one now same)
            ]
    ]
  ]
    where
      last_one :
          Member x (c ∷ []) → index_key lower c ≡ j → Member x (c ∷ cs) × (index_key lower x ≡ j)
      last_one (here _ _ e) same = (here c cs e, sym (ap (index_key lower) e) ∙ same)
      last_one (there _ _ m) same = elim m [ ]
