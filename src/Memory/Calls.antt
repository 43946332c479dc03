-- ===== src/Memory/Calls.antt =====
-- The mutating methods of `WorldStateMemory` (src/vcse/memory/world_state.py) as one type of calls,
-- and the states that any sequence of calls and clones reaches.
use vcse.Prelude.{
  true, false, ◌↔◌, ℕ, ◌+◌, String, ◌≡◌, refl, ap, ◌∙◌, none, some, List, arith, string_eq, inl,
  inr, Option-cases, ◌⊎◌, eq_cases, some_eq, subst, sym,
}
use vcse.Dict.{Dict, get, set}
use vcse.Dict.Laws.{get-set_self, get-set_ne, get-set_cases}
use vcse.Value.{Value, TruthStatus}
use vcse.Memory.Keys.{Key, key_eq, canonical_claim_key}
use vcse.Memory.Model.{State, Claim, RelationSchema, Constraint, empty_state}
use vcse.Memory.Claims.{Matches, Indexed, Coherent, IsWellFormed, IsWellFormed-empty_state}
use vcse.Memory.AddClaim.{add_claim-IsWellFormed, add_claim_absent, add_claim_present}
use vcse.Memory.{
  clone, add_relation_schema, add_claim, insert_claim, add_goal, add_constraint, claim_id,
  update_truth_status, bind_symbol, add_evidence, record_contradiction,
}

pub data Call : Type 0 where
  schema : RelationSchema → Call
  claim :
      (subject relation object : String)
      → TruthStatus
      → (qualifiers : List (String × String)) → (dependencies : List String) → (source : String)
      → Call
  goal : (subject relation object : String) → Call
  constraint : Constraint → Call
  truth_status : (claim_id : String) → TruthStatus → Call
  bind : (name : String) → Value → Call
  evidence : (target_id content source : String) → Call
  contradiction :
      (element_id reason : String) → (related : List String) → (severity : String) → Call

unfoldable pub run : State → Call → State
run s (schema r) = add_relation_schema s r
run s (claim subject relation object st quals deps src) =
    (add_claim s subject relation object st quals deps src).0
run s (goal subject relation object) = (add_goal s subject relation object).0
run s (constraint c) = add_constraint s c
run s (truth_status i st) = (update_truth_status s i st).0
run s (bind name value) = (bind_symbol s name value).0
run s (evidence target content source) = (add_evidence s target content source).0
run s (contradiction element reason related severity) =
    (record_contradiction s element reason related severity).0

pub data Reach (s : State) : State → Type 0 where
  start : Reach s s
  called : {t : State} → Reach s t → (c : Call) → Reach s (run t c)
  cloned : {t : State} → Reach s t → Reach s (clone t)

module _ (claims : Dict String Claim) (index : Dict Key String) (next : ℕ)
    (w : Coherent claims index next) (i : String) (c : Claim) (here : get claims i ≡ some c)
    (st : TruthStatus) where
  abbrev c' : Claim
  c' = record c { status = st }

  Matches-status : (k : Key) (d : Claim) → d ≡ c → Matches k d → Matches k c'
  Matches-status k d e m =
      let n = subst (Matches k) e m in
      record {
        subject = n.subject;
        relation = n.relation;
        object = n.object;
        qualifiers = n.qualifiers;
      }

  Indexed-status :
      (k : Key) (j : String) (d : Claim)
      → Indexed claims k j d
      → (e : Claim) × Indexed (set claims i c') k j e
  Indexed-status k j d x = elim (eq_cases i j) [
    | inl same ↦
        let e : d ≡ c = some_eq (sym x.stored ∙ ap (get claims) (sym same) ∙ here) in
        (
          c',
          record {
            stored = ap (get (set claims i c')) (sym same) ∙ get-set_self claims i c';
            named = ap (λ t. t.id) (sym e) ∙ x.named;
            matches = Matches-status k d e x.matches;
          },
        )
    | inr ne ↦ (
      d,
      record {
        stored = get-set_ne claims i j c' ne ∙ x.stored;
        named = x.named;
        matches = x.matches;
      },
    )
  ]

  status-Coherent : Coherent (set claims i c') index next
  status-Coherent = record {
    indexed = λ k j e. let (d, x) = w.indexed k j e in Indexed-status k j d x;
    listed = λ j d e. elim (get-set_cases claims i j c' d e) [
      | inl (same, _) ↦ let (k, f) = w.listed i c here in (k, f ∙ ap some same)
      | inr (_, old) ↦ w.listed j d old
    ];
    unique = w.unique;
    fresh =
        λ n h. get-set_ne claims i (claim_id n) c' (λ e. cc (w.fresh n h, here, e)) ∙ w.fresh n h;
  }

module _ (s : State) (i : String) (st : TruthStatus) where
  pub update_absent : get s.claims i ≡ none → update_truth_status s i st ≡ (s, false)
  unfolding update_truth_status
  update_absent e = rw (e, update_truth_status)

  pub update_present :
      (c : Claim)
      → get s.claims i ≡ some c
      → update_truth_status s i st ≡ (
        record s { claims = set s.claims i (record c { status = st }); version = s.version + 1 },
        true,
      )
  unfolding update_truth_status
  update_present c e = rw (e, update_truth_status)

  update_truth_status-IsWellFormed : IsWellFormed s → IsWellFormed (update_truth_status s i st).0
  update_truth_status-IsWellFormed w = elim (Option-cases (get s.claims i)) [
    | inl absent ↦ subst (λ r. IsWellFormed r.0) (sym (update_absent absent)) w
    | inr (c, here) ↦
        subst (λ r. IsWellFormed r.0) (sym (update_present c here))
          (status-Coherent s.claims s.claim_index s.next_claim_num w i c here st)
  ]

  update_version :
      ((update_truth_status s i st).0 ≡ s)
      ⊎ ((update_truth_status s i st).0.version ≡ s.version + 1)
  update_version = elim (Option-cases (get s.claims i)) [
    | inl absent ↦ inl (ap (λ r. r.0) (update_absent absent))
    | inr (c, here) ↦ inr (ap (λ r. r.0.version) (update_present c here))
  ]

-- Every mutating call keeps the claims and their index coherent.
pub run-IsWellFormed : (s : State) (c : Call) → IsWellFormed s → IsWellFormed (run s c)
unfolding run add_relation_schema add_goal add_constraint bind_symbol add_evidence
    record_contradiction
run-IsWellFormed s (claim subject relation object st quals deps src) w =
    add_claim-IsWellFormed s w subject relation object st quals deps src
run-IsWellFormed s (truth_status i st) w = update_truth_status-IsWellFormed s i st w
run-IsWellFormed s _ w = w

-- Every state that calls and clones reach from the empty one is well-formed.
pub Reach-IsWellFormed : {t : State} → Reach empty_state t → IsWellFormed t
unfolding clone
Reach-IsWellFormed start = IsWellFormed-empty_state
Reach-IsWellFormed (called r c) = run-IsWellFormed _ c (Reach-IsWellFormed r)
Reach-IsWellFormed (cloned r) = Reach-IsWellFormed r

add_claim_version :
    (s : State) (subject relation object : String) (st : TruthStatus)
    (quals : List (String × String)) (deps : List String) (src : String)
    → ((add_claim s subject relation object st quals deps src).0 ≡ s)
      ⊎ ((add_claim s subject relation object st quals deps src).0.version ≡ s.version + 1)
unfolding insert_claim
add_claim_version s subject relation object st quals deps src =
    elim (Option-cases (get s.claim_index (canonical_claim_key subject relation object quals))) [
      | inl absent ↦ inr (
          ap (λ r. r.0.version)
            (add_claim_absent s subject relation object quals st deps src absent))
      | inr (i, here) ↦
          inl (ap (λ r. r.0) (add_claim_present s subject relation object quals st deps src i here))
    ]

-- A call either changes nothing at all or raises the version by exactly one, so that an unchanged
-- version means an unchanged state.
pub run_version : (s : State) (c : Call) → (run s c ≡ s) ⊎ ((run s c).version ≡ s.version + 1)
unfolding run add_relation_schema add_goal add_constraint bind_symbol add_evidence
    record_contradiction
run_version s (claim subject relation object st quals deps src) =
    add_claim_version s subject relation object st quals deps src
run_version s (truth_status i st) = update_version s i st
run_version s _ = inr refl

-- A call of a mutating method leaves the version alone exactly when it leaves the state alone.
pub version_detects_change :
    (s : State) (c : Call) → ((run s c).version ≡ s.version) ↔ (run s c ≡ s)
version_detects_change s c = (
  (λ e. elim (run_version s c) [ inl same ↦ same | inr grew ↦ absurd (omega arith) ]),
  (λ e. ap (λ t. t.version) e),
)
