-- ===== src/Inference/Inverse/Closure.antt =====
-- What `infer_inverse_claims` (src/vcse/inference/inverse.py) infers.
use text.Mathlib.TextEquality.{eq_iff}
use vcse.Prelude.{
  Bool-cases, ◌==◌, some_eq, ap, ◌∙◌, false, ◌≡◌, refl, sym, subst, true, false, ◌⊎◌, inl, inr,
  String, Option, none, some, List, [], ◌∷◌, ◌++◌, map, Member, here, there, Member-append,
  Member-append_right, Member-append_cases, contains, string_eq,
}
use vcse.Dict.{get}
use vcse.Inference.{KnowledgeClaim, claim_key, triple_key}
use vcse.Inference.Fresh.{Found}
use vcse.Inference.Fresh.Laws.{
  IsDistinct, IsFresh, start-IsFresh, IsAdmitted, none-IsAdmitted, append-IsAdmitted,
  admit-IsAdmitted, admitted-IsInferred,
}
use vcse.Inference.Inverse.{
  relation_map, InferredClaim, inverse_key, invert, inverse_of, admit_inverse, infer_inverses,
  infer_inverse_claims,
}

abbrev candidate_of : KnowledgeClaim → Option String → List InferredClaim
candidate_of c none = []
candidate_of c (some i) = invert c i ∷ []

candidates : List KnowledgeClaim → List InferredClaim
candidates [] = []
candidates (c ∷ claims) = candidate_of c (inverse_of c.relation) ++ candidates claims

module _ (ks : List String) where
  admit_inverse-IsAdmitted :
      (c : KnowledgeClaim) (o : Option String) (s : Found InferredClaim)
      → IsFresh inverse_key ks s
      → IsAdmitted inverse_key ks (candidate_of c o) s (admit_inverse ks c o s)
  unfolding admit_inverse
  admit_inverse-IsAdmitted c none s f = none-IsAdmitted inverse_key ks s f
  admit_inverse-IsAdmitted c (some i) s f = admit-IsAdmitted inverse_key ks (invert c i) s f

  infer_inverses-IsAdmitted :
      (claims : List KnowledgeClaim) (s : Found InferredClaim)
      → IsFresh inverse_key ks s
      → IsAdmitted inverse_key ks (candidates claims) s (infer_inverses ks claims s)
  unfolding infer_inverses candidates
  infer_inverses-IsAdmitted [] s f = none-IsAdmitted inverse_key ks s f
  infer_inverses-IsAdmitted (c ∷ claims) s f =
      let o = inverse_of c.relation in
      let t = admit_inverse ks c o s in
      let h = admit_inverse-IsAdmitted c o s f in
      append-IsAdmitted inverse_key ks (candidate_of c o) (candidates claims) s t
        (infer_inverses ks claims t) h (infer_inverses-IsAdmitted claims t h.kept)

-- Of the relations, only `has_capital` has another one as its inverse: that of `capital_of` is itself.
no_inverse :
    (r : String) → ("has_capital" == r) ≡ false → ("capital_of" == r) ≡ false → inverse_of r ≡ none
unfolding inverse_of get
no_inverse r p q = rw (unknown, inverse_of) refl
  where
    unknown : get relation_map r ≡ none
    unknown = rw (p, get) (rw (q, get) refl)

inverse_of_only : (r i : String) → inverse_of r ≡ some i → (r ≡ "has_capital") × (i ≡ "capital_of")
unfolding inverse_of get
inverse_of_only r i h = elim (Bool-cases ("has_capital" == r)) [
  | inl p ↦
      let at : r ≡ "has_capital" = sym ((eq_iff "has_capital" r).0 p) in
      (at, some_eq (sym h ∙ ap inverse_of at))
  | inr p ↦ elim (Bool-cases ("capital_of" == r)) [
    | inl q ↦
        let none_there : some i ≡ none =
          sym h ∙ ap inverse_of (sym ((eq_iff "capital_of" r).0 q)) in
        cc
    | inr q ↦ let none_there : some i ≡ none = sym h ∙ no_inverse r p q in cc
  ]
]

-- The inferred claim is a stored one of `has_capital`, turned round under `capital_of`.
pub record IsInverse (claims : List KnowledgeClaim) (x : InferredClaim) : Type 0 where
  pub claim : KnowledgeClaim
  pub is_stored : Member claim claims
  pub of_capital : claim.relation ≡ "has_capital"
  pub subject : x.subject ≡ claim.object
  pub relation : x.relation ≡ "capital_of"
  pub object : x.object ≡ claim.subject
  pub derived_from : x.derived_from ≡ claim_key claim

candidates-IsInverse :
    (claims : List KnowledgeClaim) (x : InferredClaim)
    → Member x (candidates claims)
    → IsInverse claims x
unfolding candidates invert
candidates-IsInverse [] x m = elim m [ ]
candidates-IsInverse (c ∷ claims) x m =
    elim (Member-append_cases x (candidate_of c (inverse_of c.relation)) (candidates claims) m) [
      | inl n ↦ of_claim (inverse_of c.relation) refl n
      | inr n ↦
          let i = candidates-IsInverse claims x n in
          record {
            claim = i.claim;
            is_stored = there c claims i.is_stored;
            of_capital = i.of_capital;
            subject = i.subject;
            relation = i.relation;
            object = i.object;
            derived_from = i.derived_from;
          }
    ]
  where
    of_claim :
        (o : Option String)
        → inverse_of c.relation ≡ o
        → Member x (candidate_of c o)
        → IsInverse (c ∷ claims) x
    of_claim none at n = elim n [ ]
    of_claim (some i) at (here _ _ e) =
        let (capital, capital_of) = inverse_of_only c.relation i at in
        record {
          claim = c;
          is_stored = here c claims refl;
          of_capital = capital;
          subject = sym (ap (λ y. y.subject) e);
          relation = sym (ap (λ y. y.relation) e) ∙ capital_of;
          object = sym (ap (λ y. y.object) e);
          derived_from = sym (ap (λ y. y.derived_from) e);
        }
    of_claim (some i) at (there _ _ n) = elim n [ ]

inverse_candidate :
    (claims : List KnowledgeClaim) (c : KnowledgeClaim) (i : String)
    → Member c claims
    → inverse_of c.relation ≡ some i
    → Member (invert c i) (candidates claims)
unfolding candidates
inverse_candidate [] c i m h = elim m [ ]
inverse_candidate (d ∷ claims) c i (there _ _ m) h =
    Member-append_right (invert c i) (candidate_of d (inverse_of d.relation)) (candidates claims)
      (inverse_candidate claims c i m h)
inverse_candidate (d ∷ claims) c i (here _ _ e) h =
    Member-append (invert c i) (candidate_of d (inverse_of d.relation)) (candidates claims) (
      subst (λ z. Member (invert c i) (candidate_of z (inverse_of z.relation))) (sym e)
        (subst (λ o. Member (invert c i) (candidate_of c o)) (sym h) (here (invert c i) [] refl)))

module _ (claims : List KnowledgeClaim) where
  pub record IsInverseClosure (inferred : List InferredClaim) : Type 0 where
    pub distinct : IsDistinct (map inverse_key inferred)
    pub fresh :
        (k : String)
        → contains k (map inverse_key inferred) ≡ true
        → contains k (map claim_key claims) ≡ false
    pub sound : (x : InferredClaim) → Member x inferred → IsInverse claims x
    pub complete :
        (c : KnowledgeClaim)
        → Member c claims
        → c.relation ≡ "has_capital"
        → (contains (triple_key c.object "capital_of" c.subject) (map claim_key claims) ≡ true)
          ⊎ (contains (triple_key c.object "capital_of" c.subject) (map inverse_key inferred)
              ≡ true)

  -- The inverse inference turns the stored claims of `has_capital` round under `capital_of`, and
  -- infers nothing else: the inferred keys differ and none is a stored claim's, each inferred claim is
  -- a stored one of `has_capital` with its subject and object exchanged, and for each stored one the
  -- key of the exchanged claim is a stored claim's or an inferred one's.
  pub infer_inverse_claims-IsInverseClosure : IsInverseClosure (infer_inverse_claims claims)
  unfolding infer_inverse_claims invert inverse_key inverse_of get
  infer_inverse_claims-IsInverseClosure =
      let ks = map claim_key claims in
      let start : Found InferredClaim = record { inferred = []; inferred_keys = [] } in
      let h =
        admitted-IsInferred inverse_key ks (candidates claims) (infer_inverses ks claims start)
          (infer_inverses-IsAdmitted ks claims start (start-IsFresh inverse_key ks)) in
      record {
        distinct = h.distinct;
        fresh = h.fresh;
        sound = λ x m. candidates-IsInverse claims x (h.sound x m);
        complete = λ c m at.
            h.complete (invert c "capital_of")
              (inverse_candidate claims c "capital_of" m (ap inverse_of at));
      }
