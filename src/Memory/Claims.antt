-- ===== src/Memory/Claims.antt =====
-- The claims and their index (src/vcse/memory/world_state.py: `add_claim`, `find_claim`): the
-- invariant that ties them together, kept by the insertion of a new claim.
use text.Mathlib.TextLemmas.{append_cancel_left}
use vcse.Prelude.{
  ℕ, ◌≤◌, String, ◌≡◌, ◌≢◌, refl, sym, subst, ◌⊎◌, ap, ◌∙◌, none, some, List, [], arith, string_eq,
  inl, inr,
}
use vcse.Dict.{Dict, get}
use vcse.Dict.Laws.{get-set_self, get-set_ne, get-set_cases}
use vcse.Value.{TruthStatus}
use vcse.Text.Decimal.{show, show-injective}
use vcse.Memory.Keys.{Key, key_eq, dict_of}
use vcse.Memory.Model.{State, Claim, empty_state}
use vcse.Memory.{claim_id, new_claim, insert_claim}

-- The claim was stored under the key.
pub record Matches (k : Key) (c : Claim) : Type 0 where
  pub subject : c.subject ≡ k.subject
  pub relation : c.relation ≡ k.relation
  pub object : c.object ≡ k.object
  pub qualifiers : c.qualifiers ≡ dict_of [] k.qualifiers

pub record Indexed (claims : Dict String Claim) (k : Key) (i : String) (c : Claim) : Type 0 where
  pub stored : get claims i ≡ some c
  pub named : c.id ≡ i
  pub matches : Matches k c

-- Every index entry leads to the claim that has its key, every claim is indexed, no two keys
-- share a claim, and the ids to come are free.
pub record Coherent (claims : Dict String Claim) (index : Dict Key String) (next : ℕ) : Type 0 where
  pub indexed : (k : Key) (i : String) → get index k ≡ some i → (c : Claim) × Indexed claims k i c
  pub listed : (i : String) (c : Claim) → get claims i ≡ some c → (k : Key) × (get index k ≡ some i)
  pub unique : (k j : Key) (i : String) → get index k ≡ some i → get index j ≡ some i → k ≡ j
  pub fresh : (n : ℕ) → next ≤ n → get claims (claim_id n) ≡ none

abbrev pub IsWellFormed : State → Type 0
IsWellFormed s = Coherent s.claims s.claim_index s.next_claim_num

claim_id-injective : (m n : ℕ) → claim_id m ≡ claim_id n → m ≡ n
unfolding claim_id
claim_id-injective m n e = show-injective m n (append_cancel_left "claim:" (show m) (show n) e)

pub IsWellFormed-empty_state : IsWellFormed empty_state
unfolding get
IsWellFormed-empty_state = record {
  indexed = λ k i e. cc;
  listed = λ i c e. cc;
  unique = λ k j i e f. cc;
  fresh = λ n h. refl;
}

module _ (s : State) (w : IsWellFormed s) (k : Key) (st : TruthStatus) (deps : List String)
    (src : String) (absent : get s.claim_index k ≡ none) where
  abbrev pub id' : String
  id' = claim_id s.next_claim_num

  abbrev pub s' : State
  s' = insert_claim s k st deps src

  pub other_id : (i : String) (c : Claim) → get s.claims i ≡ some c → id' ≢ i
  other_id i c e same = cc (w.fresh s.next_claim_num (omega arith), e, same)

  claims_new : get s'.claims id' ≡ some (new_claim k id' st deps src)
  unfolding insert_claim
  claims_new = get-set_self s.claims id' _

  pub claims_old : (i : String) → id' ≢ i → get s'.claims i ≡ get s.claims i
  unfolding insert_claim
  claims_old i ne = get-set_ne s.claims id' i _ ne

  index_cases :
      (j : Key) (i : String)
      → get s'.claim_index j ≡ some i
      → ((k ≡ j) × (id' ≡ i)) ⊎ ((k ≢ j) × (get s.claim_index j ≡ some i))
  unfolding insert_claim
  index_cases j i e = get-set_cases s.claim_index k j id' i e

  claims_cases :
      (i : String) (c : Claim)
      → get s'.claims i ≡ some c
      → ((id' ≡ i) × (new_claim k id' st deps src ≡ c)) ⊎ ((id' ≢ i) × (get s.claims i ≡ some c))
  unfolding insert_claim
  claims_cases i c e = get-set_cases s.claims id' i _ c e

  pub index_new : get s'.claim_index k ≡ some id'
  unfolding insert_claim
  index_new = get-set_self s.claim_index k id'

  index_old : (j : Key) (i : String) → get s.claim_index j ≡ some i → get s'.claim_index j ≡ some i
  unfolding insert_claim
  index_old j i e = get-set_ne s.claim_index k j id' (λ same. cc (absent, e, same)) ∙ e

  pub Indexed-new : Indexed s'.claims k id' (new_claim k id' st deps src)
  unfolding new_claim
  Indexed-new = record {
    stored = claims_new;
    named = refl;
    matches = record { subject = refl; relation = refl; object = refl; qualifiers = refl };
  }

  Indexed-old :
      (j : Key) (i : String) (c : Claim) → Indexed s.claims j i c → Indexed s'.claims j i c
  Indexed-old j i c x = record {
    stored = claims_old i (other_id i c x.stored) ∙ x.stored;
    named = x.named;
    matches = x.matches;
  }

  indexed' :
      (j : Key) (i : String) → get s'.claim_index j ≡ some i → (c : Claim) × Indexed s'.claims j i c
  indexed' j i e = elim (index_cases j i e) [
    | inl (same, named) ↦ (
      new_claim k id' st deps src,
      subst (λ j. Indexed s'.claims j i (new_claim k id' st deps src)) same
          (subst (λ i. Indexed s'.claims k i (new_claim k id' st deps src)) named Indexed-new),
    )
    | inr (ne, old) ↦ let (c, x) = w.indexed j i old in (c, Indexed-old j i c x)
  ]

  listed' :
      (i : String) (c : Claim)
      → get s'.claims i ≡ some c
      → (j : Key) × (get s'.claim_index j ≡ some i)
  listed' i c e = elim (claims_cases i c e) [
    | inl (same, _) ↦ (k, index_new ∙ ap some same)
    | inr (_, old) ↦ let (j, f) = w.listed i c old in (j, index_old j i f)
  ]

  -- No key of the old index leads to the new id.
  index_free : (j : Key) → get s.claim_index j ≢ some id'
  index_free j e = let (c, x) = w.indexed j id' e in other_id id' c x.stored refl

  unique' :
      (j l : Key) (i : String)
      → get s'.claim_index j ≡ some i
      → get s'.claim_index l ≡ some i
      → j ≡ l
  unique' j l i e f = elim (index_cases j i e) [
    | inl (same, named) ↦ elim (index_cases l i f) [
      | inl (same', _) ↦ sym same ∙ same'
      | inr (_, old) ↦ absurd (index_free l (old ∙ ap some (sym named)))
    ]
    | inr (_, old) ↦ elim (index_cases l i f) [
      | inl (_, named) ↦ absurd (index_free j (old ∙ ap some (sym named)))
      | inr (_, old') ↦ w.unique j l i old old'
    ]
  ]

  fresh' : (n : ℕ) → s'.next_claim_num ≤ n → get s'.claims (claim_id n) ≡ none
  unfolding insert_claim
  fresh' n h =
      claims_old (claim_id n) (λ e. omega (arith, claim_id-injective s.next_claim_num n e))
      ∙ w.fresh n (omega arith)

  pub insert_claim-IsWellFormed : IsWellFormed s'
  insert_claim-IsWellFormed = record {
    indexed = indexed';
    listed = listed';
    unique = unique';
    fresh = fresh';
  }
