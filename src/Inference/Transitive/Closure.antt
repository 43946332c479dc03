-- ===== src/Inference/Transitive/Closure.antt =====
-- What `infer_transitive_claims` (src/vcse/inference/transitive.py) infers: the chains of two hops.
use text.Mathlib.TextEquality.{eq_iff}
use vcse.Prelude.{
  ◌≡◌, refl, sym, ap, subst, Bool, true, false, not, ◌==◌, string_eq, pair_eq, ◌⊎◌, inl, inr,
  String, List, [], ◌∷◌, ◌++◌, map, Member, here, there, Member-append, Member-append_right,
  Member-append_cases, Member-map, Member-map_inv, contains, if◌then◌else◌, if_both, arith,
}
use vcse.Dict.{get}
use vcse.Inference.{KnowledgeClaim, claim_key, triple_key}
use vcse.Inference.Fresh.{Found, admit_all}
use vcse.Inference.Fresh.Laws.{
  IsDistinct, IsFresh, start-IsFresh, IsAdmitted, none-IsAdmitted, append-IsAdmitted,
  admit_all-IsAdmitted, admitted-IsInferred,
}
use vcse.Inference.Transitive.{
  TransitiveInferredClaim, inferred_key, chain, Index, look, index_key, index_claims,
  second_candidates, infer_from, infer_each, infer_transitive_claims,
}
use vcse.Inference.Transitive.Lookup.{index-has, index-only}

pair_at : (p q : String × String) → p.0 ≡ q.0 → p.1 ≡ q.1 → p ≡ q
pair_at (a, b) (c, d) e h = cc

module _ (lower : String → String) where
  -- Two claims that the approved chains connect
  pub record IsChain (claims : List KnowledgeClaim) (first second : KnowledgeClaim) : Type 0 where
    pub first_there : Member first claims
    pub second_there : Member second claims
    pub in_country : first.relation ≡ "located_in_country"
    pub connected : lower second.subject ≡ lower first.object
    pub second_relation :
        (lower second.relation ≡ "part_of") ⊎ (lower second.relation ≡ "located_in_region")

  -- The candidates for one first claim, and for all of them
  abbrev candidates_of : Index → KnowledgeClaim → List TransitiveInferredClaim
  candidates_of d first =
      if not (first.relation == "located_in_country")
      then []
      else map (chain first) (second_candidates lower d first)

  candidates : Index → List KnowledgeClaim → List TransitiveInferredClaim
  candidates d [] = []
  candidates d (first ∷ claims) = candidates_of d first ++ candidates d claims

  infer_from-IsAdmitted :
      (ks : List String) (d : Index) (first : KnowledgeClaim) (s : Found TransitiveInferredClaim)
      → IsFresh inferred_key ks s
      → IsAdmitted inferred_key ks (candidates_of d first) s (infer_from lower ks d first s)
  unfolding infer_from
  infer_from-IsAdmitted ks d first s f = by_relation (not (first.relation == "located_in_country"))
    where
      by_relation :
          (b : Bool)
          → IsAdmitted inferred_key ks
              (if b then [] else map (chain first) (second_candidates lower d first))
              s
              (if b
                then s
                else admit_all inferred_key ks
                    (map (chain first) (second_candidates lower d first))
                    s)
      by_relation true = none-IsAdmitted inferred_key ks s f
      by_relation false =
          admit_all-IsAdmitted inferred_key ks (map (chain first) (second_candidates lower d first))
            s f

  infer_each-IsAdmitted :
      (ks : List String) (d : Index) (claims : List KnowledgeClaim)
      (s : Found TransitiveInferredClaim)
      → IsFresh inferred_key ks s
      → IsAdmitted inferred_key ks (candidates d claims) s (infer_each lower ks d claims s)
  unfolding infer_each candidates
  infer_each-IsAdmitted ks d [] s f = none-IsAdmitted inferred_key ks s f
  infer_each-IsAdmitted ks d (first ∷ claims) s f =
      let t = infer_from lower ks d first s in
      let h = infer_from-IsAdmitted ks d first s f in
      append-IsAdmitted inferred_key ks (candidates_of d first) (candidates d claims) s t
        (infer_each lower ks d claims t) h (infer_each-IsAdmitted ks d claims t h.kept)

  module _ (claims : List KnowledgeClaim) where
    abbrev index : Index
    index = index_claims lower claims []

    -- The second claims that the index gives are those that are connected.
    second_found :
        (first second : KnowledgeClaim)
        → IsChain claims first second
        → Member second (second_candidates lower index first)
    unfolding second_candidates index_key
    second_found first second h =
        let at = index-has lower claims [] second h.second_there in
        elim h.second_relation [
          | inl part ↦
              Member-append second _ _
                (subst (λ k. Member second (look index k)) (pair_at _ _ h.connected part) at)
          | inr region ↦
              Member-append_right second (look index (lower first.object, "part_of")) _
                (subst (λ k. Member second (look index k)) (pair_at _ _ h.connected region) at)
        ]

    second_connected :
        (first second : KnowledgeClaim)
        → Member first claims
        → first.relation ≡ "located_in_country"
        → Member second (second_candidates lower index first)
        → IsChain claims first second
    unfolding second_candidates index_key look get
    second_connected first second there_first country m =
        elim (Member-append_cases second (look index (lower first.object, "part_of")) _ m) [
          | inl n ↦ by_index "part_of" (index-only lower claims [] _ second n) (λ e. inl e)
          | inr n ↦
              by_index "located_in_region" (index-only lower claims [] _ second n) (λ e. inr e)
        ]
      where
        by_index :
            (relation : String)
            → Member second (look [] (lower first.object, relation))
              ⊎ (Member second claims × (index_key lower second ≡ (lower first.object, relation)))
            → (lower second.relation ≡ relation
                → (lower second.relation ≡ "part_of")
                  ⊎ (lower second.relation ≡ "located_in_region"))
            → IsChain claims first second
        by_index relation (inl none_there) f = elim none_there [ ]
        by_index relation (inr (there_second, e)) f = record {
          first_there = there_first;
          second_there = there_second;
          in_country = country;
          connected = ap (λ p. p.0) e;
          second_relation = f (ap (λ p. p.1) e);
        }

    candidate_chain :
        (firsts : List KnowledgeClaim)
        → ((c : KnowledgeClaim) → Member c firsts → Member c claims)
        → (x : TransitiveInferredClaim) → Member x (candidates index firsts)
        → (first : KnowledgeClaim) × (second : KnowledgeClaim) × IsChain claims first second
          × (chain first second ≡ x)
    unfolding candidates
    candidate_chain [] within x m = elim m [ ]
    candidate_chain (first ∷ firsts) within x m =
        elim (Member-append_cases x (candidates_of index first) (candidates index firsts) m) [
          | inr n ↦ candidate_chain firsts (λ c k. within c (there first firsts k)) x n
          | inl n ↦ of_first (within first (here first firsts refl)) n
        ]
      where
        of_first :
            Member first claims
            → Member x (candidates_of index first)
            → (f : KnowledgeClaim) × (second : KnowledgeClaim) × IsChain claims f second
              × (chain f second ≡ x)
        of_first there_first =
            if_both
              (λ xs.
                Member x xs
                → (f : KnowledgeClaim) × (second : KnowledgeClaim) × IsChain claims f second
                  × (chain f second ≡ x))
              (not (first.relation == "located_in_country")) [] _ (λ _ k. elim k [ ])
              (λ h k.
                let (second, at, e) =
                  Member-map_inv (chain first) x (second_candidates lower index first) k in
                (
                  first,
                  second,
                  second_connected first second there_first
                      (ground (arith, h, eq_iff first.relation "located_in_country")) at,
                  e,
                ))

    chain_candidate :
        (firsts : List KnowledgeClaim) (first second : KnowledgeClaim)
        → Member first firsts
        → IsChain claims first second
        → Member (chain first second) (candidates index firsts)
    unfolding candidates
    chain_candidate [] first second m h = elim m [ ]
    chain_candidate (c ∷ firsts) first second (there _ _ m) h =
        Member-append_right (chain first second) (candidates_of index c) _
          (chain_candidate firsts first second m h)
    chain_candidate (c ∷ firsts) first second (here _ _ e) h =
        Member-append (chain first second) (candidates_of index c) (candidates index firsts) (
          subst (λ z. Member (chain first second) (candidates_of index z)) (sym e)
            (if_both (Member (chain first second)) (not (first.relation == "located_in_country")) []
              _
              (λ k.
                absurd
                  (ground (arith, k, h.in_country, eq_iff first.relation "located_in_country")))
              (λ _.
                Member-map (chain first) second (second_candidates lower index first)
                  (second_found first second h))))

    -- The inferred claim leads from the first claim's subject to the second one's object.
    pub record IsLink (first second : KnowledgeClaim) (x : TransitiveInferredClaim) : Type 0 where
      pub subject : x.subject ≡ first.subject
      pub relation : x.relation ≡ "located_in_region"
      pub object : x.object ≡ second.object

    -- What is inferred: the keys differ and none is that of a claim; each inferred claim is that of
    -- a chain, and each chain's key is that of a claim or of an inferred claim.
    pub record IsClosure (inferred : List TransitiveInferredClaim) : Type 0 where
      pub distinct : IsDistinct (map inferred_key inferred)
      pub fresh :
          (k : String)
          → contains k (map inferred_key inferred) ≡ true
          → contains k (map claim_key claims) ≡ false
      pub sound :
          (x : TransitiveInferredClaim)
          → Member x inferred
          → (first : KnowledgeClaim) × (second : KnowledgeClaim) × IsChain claims first second
            × IsLink first second x
      pub complete :
          (first second : KnowledgeClaim)
          → IsChain claims first second
          → (contains
                (triple_key first.subject "located_in_region" second.object)
                (map claim_key claims)
              ≡ true)
            ⊎ (contains
                  (triple_key first.subject "located_in_region" second.object)
                  (map inferred_key inferred)
                ≡ true)

    chain-IsLink :
        (first second : KnowledgeClaim) (x : TransitiveInferredClaim)
        → chain first second ≡ x
        → IsLink first second x
    unfolding chain
    chain-IsLink first second x e = record {
      subject = sym (ap (λ y. y.subject) e);
      relation = sym (ap (λ y. y.relation) e);
      object = sym (ap (λ y. y.object) e);
    }

    -- The transitive inference gives exactly the two-hop chains of the approved relations that are
    -- new: the inferred keys differ and none is a stored claim's, each inferred claim is that of a
    -- chain, from the first claim's subject to the second one's object, and the key of each chain is a
    -- stored claim's or an inferred one's.
    pub infer_transitive_claims-IsClosure : IsClosure (infer_transitive_claims lower claims)
    unfolding infer_transitive_claims chain inferred_key
    infer_transitive_claims-IsClosure =
        let ks = map claim_key claims in
        let start : Found TransitiveInferredClaim = record { inferred = []; inferred_keys = [] } in
        let h =
          admitted-IsInferred inferred_key ks (candidates index claims)
            (infer_each lower ks index claims start)
            (infer_each-IsAdmitted ks index claims start (start-IsFresh inferred_key ks)) in
        record {
          distinct = h.distinct;
          fresh = h.fresh;
          sound = λ x m.
              let (first, second, c, e) = candidate_chain claims (λ c k. k) x (h.sound x m) in
              (first, second, c, chain-IsLink first second x e);
          complete = λ first second c.
              h.complete (chain first second) (chain_candidate claims first second c.first_there c);
        }
