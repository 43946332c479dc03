-- ===== src/Memory/AddClaim.antt =====
-- `add_claim` and `find_claim` of src/vcse/memory/world_state.py, and how they go together.
use vcse.Prelude.{
  is_some, true, eq_cases, subst, refl, String, ◌≡◌, ◌≢◌, ap, sym, ◌∙◌, none, some, List, string_eq,
  inl, inr, Option-cases,
}
use vcse.Dict.{get}
use vcse.Dict.Laws.{get-set_ne}
use vcse.Value.{TruthStatus}
use vcse.Memory.Keys.{Key, key_eq, canonical_claim_key}
use vcse.Memory.Model.{State, Claim}
use vcse.Memory.Claims.{
  Matches, IsWellFormed, insert_claim-IsWellFormed, index_new, claims_old, other_id,
}
use vcse.Memory.{claim_id, insert_claim, add_claim_at, add_claim, find_claim}

module _ (s : State) (subject relation object : String) (quals : List (String × String)) where
  pub find_claim_at :
      (i : String)
      → get s.claim_index (canonical_claim_key subject relation object quals) ≡ some i
      → find_claim s subject relation object quals ≡ get s.claims i
  unfolding find_claim
  find_claim_at i e = rw (e, find_claim)

  pub find_claim_absent :
      get s.claim_index (canonical_claim_key subject relation object quals) ≡ none
      → find_claim s subject relation object quals ≡ none
  unfolding find_claim
  find_claim_absent e = rw (e, find_claim)

  pub add_claim_absent :
      (st : TruthStatus) (deps : List String) (src : String)
      → get s.claim_index (canonical_claim_key subject relation object quals) ≡ none
      → add_claim s subject relation object st quals deps src ≡ (
        insert_claim s (canonical_claim_key subject relation object quals) st deps src,
        claim_id s.next_claim_num,
      )
  unfolding add_claim add_claim_at
  add_claim_absent st deps src e = rw (e, add_claim_at)

  pub add_claim_present :
      (st : TruthStatus) (deps : List String) (src i : String)
      → get s.claim_index (canonical_claim_key subject relation object quals) ≡ some i
      → add_claim s subject relation object st quals deps src ≡ (s, i)
  unfolding add_claim add_claim_at
  add_claim_present st deps src i e = rw (e, add_claim_at)

module _ (s : State) (w : IsWellFormed s) (k : Key) (st : TruthStatus) (deps : List String)
    (src : String) (absent : get s.claim_index k ≡ none) (subject relation object : String)
    (quals : List (String × String))
    (ne : k ≢ canonical_claim_key subject relation object quals) where
  abbrev j : Key
  j = canonical_claim_key subject relation object quals

  index_same : get (insert_claim s k st deps src).claim_index j ≡ get s.claim_index j
  unfolding insert_claim
  index_same = get-set_ne s.claim_index k j (claim_id s.next_claim_num) ne

  find_claim-insert_claim :
      find_claim (insert_claim s k st deps src) subject relation object quals
      ≡ find_claim s subject relation object quals
  find_claim-insert_claim = elim (Option-cases (get s.claim_index j)) [
    | inl none' ↦
        find_claim_absent (insert_claim s k st deps src) subject relation object quals
          (index_same ∙ none')
        ∙ sym (find_claim_absent s subject relation object quals none')
    | inr (i, old) ↦
        let (c, x) = w.indexed j i old in
        find_claim_at (insert_claim s k st deps src) subject relation object quals i
          (index_same ∙ old)
        ∙ claims_old s w k st deps src absent i (other_id s w k st deps src absent i c x.stored)
        ∙ sym (find_claim_at s subject relation object quals i old)
  ]

module _ (s : State) (w : IsWellFormed s) (subject relation object : String) (st : TruthStatus)
    (quals : List (String × String)) (deps : List String) (src : String) where
  abbrev key : Key
  key = canonical_claim_key subject relation object quals

  abbrev added : State × String
  added = add_claim s subject relation object st quals deps src

  -- Adding a claim keeps the state well-formed, whether or not the claim was there.
  pub add_claim-IsWellFormed : IsWellFormed added.0
  unfolding add_claim add_claim_at
  add_claim-IsWellFormed = elim (Option-cases (get s.claim_index key)) [
    | inl absent ↦ rw (absent, add_claim_at) (insert_claim-IsWellFormed s w key st deps src absent)
    | inr (i, present) ↦ rw (present, add_claim_at) w
  ]

  -- The key of the call leads to the returned id.
  add_claim_key : get added.0.claim_index key ≡ some added.1
  unfolding add_claim add_claim_at
  add_claim_key = elim (Option-cases (get s.claim_index key)) [
    | inl absent ↦ rw (absent, add_claim_at) (index_new s w key st deps src absent)
    | inr (i, present) ↦ rw (present, add_claim_at) present
  ]

  -- In a well-formed state, a claim just added is found under the same arguments: the found claim
  -- has the returned id and the normalised subject, relation and object.
  pub find_claim-add_claim :
      (c : Claim) × (find_claim added.0 subject relation object quals ≡ some c)
      × (c.id ≡ added.1)
      × Matches key c
  find_claim-add_claim =
      let (c, x) = add_claim-IsWellFormed.indexed key added.1 add_claim_key in
      (
        c,
        find_claim_at added.0 subject relation object quals added.1 add_claim_key ∙ x.stored,
        x.named,
        x.matches,
      )

  -- In a well-formed state, adding a claim again under the same subject, relation, object and
  -- qualifiers, with any status, dependencies and source, changes nothing and returns the id of the
  -- first time.
  pub add_claim_again :
      (st' : TruthStatus) (deps' : List String) (src' : String)
      → add_claim added.0 subject relation object st' quals deps' src' ≡ added
  add_claim_again st' deps' src' =
      add_claim_present added.0 subject relation object quals st' deps' src' added.1 add_claim_key

  -- In a well-formed state, adding a claim leaves what is found under every other canonical key as
  -- it was.
  pub find_claim-add_claim_ne :
      (subject' relation' object' : String) (quals' : List (String × String))
      → key ≢ canonical_claim_key subject' relation' object' quals'
      → find_claim added.0 subject' relation' object' quals'
        ≡ find_claim s subject' relation' object' quals'
  find_claim-add_claim_ne subject' relation' object' quals' ne =
      elim (Option-cases (get s.claim_index key)) [
        | inl absent ↦
            ap (λ r. find_claim r.0 subject' relation' object' quals')
              (add_claim_absent s subject relation object quals st deps src absent)
            ∙ find_claim-insert_claim s w key st deps src absent subject' relation' object' quals'
                ne
        | inr (i, present) ↦
            rw (add_claim_present s subject relation object quals st deps src i present)
      ]

  -- What is found before is still found, under whatever key.
  pub find_claim_kept :
      (subject' relation' object' : String) (quals' : List (String × String))
      → is_some (find_claim s subject' relation' object' quals') ≡ true
      → is_some (find_claim added.0 subject' relation' object' quals') ≡ true
  find_claim_kept subject' relation' object' quals' h =
      elim (eq_cases key (canonical_claim_key subject' relation' object' quals')) [
        | inl same ↦
            let (c, x) = add_claim-IsWellFormed.indexed key added.1 add_claim_key in
            ap is_some (
              find_claim_at added.0 subject' relation' object' quals' added.1
                (subst (λ k. get added.0.claim_index k ≡ some added.1) same add_claim_key)
              ∙ x.stored)
        | inr other ↦
            ap is_some (find_claim-add_claim_ne subject' relation' object' quals' other) ∙ h
      ]

  -- Constraints and goals are not touched.
  pub add_claim_rest : (added.0.constraints ≡ s.constraints) × (added.0.goals ≡ s.goals)
  unfolding add_claim add_claim_at insert_claim
  add_claim_rest = elim (Option-cases (get s.claim_index key)) [
    | inl absent ↦ rw (absent, add_claim_at) (refl, refl)
    | inr (i, present) ↦ rw (present, add_claim_at) (refl, refl)
  ]
