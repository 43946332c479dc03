-- ===== src/Proposer/Rules.antt =====
-- `RuleBasedProposer` of src/vcse/proposer/rule_based.py, without rules of a capability bundle
-- (`external_rules`, by default none).
pub mod Justified
pub mod Conflicts
pub mod Correct
use vcse.Prelude.{
  ℕ, zero, suc, String, Bool, true, false, not, ◌&&◌, ◌||◌, ◌==◌, string_eq, Option, none, some,
  List, [], ◌∷◌, ◌++◌, length, take, leb, is_empty, is_some, filterb, if◌then◌else◌,
}
use vcse.Dict.{Dict, get, set, values}
use vcse.Value.{Value, text, status, texts, supported, status_value}
use vcse.Memory.Keys.{concat}
use vcse.Memory.Model.{State, Claim, Goal, claim_text}
use vcse.Memory.{get_relation_schema, find_claim, get_contradictions_for, or_nil}
use vcse.Verifier.Claims.{is_transitive}
use vcse.Verifier.Contradictions.{is_final}
use vcse.Transition.Args.{Transition}

-- `[left, right]`, with its text
abbrev pub pair_value : String → String → Value
pair_value left right =
    texts (left ∷ right ∷ []) (concat ("['" ∷ left ∷ "', '" ∷ right ∷ "']" ∷ []))

-- The AddClaim transition of two of the rules
abbrev pub supported_claim :
    (subject relation object left right description effect : String) → Transition
supported_claim subject relation object left right description effect = record {
  type = "AddClaim";
  args =
      ("subject", text subject)
      ∷ ("relation", text relation)
      ∷ ("object", text object)
      ∷ ("status", status supported)
      ∷ ("dependencies", pair_value left right)
      ∷ [];
  description = description;
  expected_effect = effect;
  source = "rule_based";
}

abbrev pub transitive_claim : Claim → Claim → Transition
transitive_claim left right =
    supported_claim left.subject left.relation right.object left.id right.id
      (concat ("Infer " ∷ left.subject ∷ " " ∷ left.relation ∷ " " ∷ right.object ∷ []))
      "Adds transitive supported claim"

-- What the loops of `_propose_transitive_closure` come to: `full` is its `return` in the middle.
pub data Proposed : Type 0 where
  more full : List Transition → Proposed

abbrev pub proposals_of : Proposed → List Transition
proposals_of (more ts) = ts
proposals_of (full ts) = ts

-- The tests on `right` that do not continue
unfoldable pub extends : State → Claim → Claim → Bool
extends s left right =
    left.relation == right.relation
    && left.object == right.subject
    && not (is_some (find_claim s left.subject left.relation right.object []))

abbrev pub appended : ℕ → List Transition → (List Transition → Proposed) → Proposed
appended limit ts next = if leb limit (length ts) then full ts else next ts

unfoldable pub transitive_right : State → ℕ → Claim → List Claim → List Transition → Proposed
transitive_right s limit left [] ts = more ts
transitive_right s limit left (right ∷ rest) ts =
    if extends s left right
    then appended limit (ts ++ transitive_claim left right ∷ [])
        (transitive_right s limit left rest)
    else transitive_right s limit left rest ts

abbrev pub then_more : Proposed → (List Transition → Proposed) → Proposed
then_more (full ts) next = full ts
then_more (more ts) next = next ts

unfoldable pub transitive_left : State → ℕ → List Claim → List Claim → List Transition → Proposed
transitive_left s limit claims [] ts = more ts
transitive_left s limit claims (left ∷ rest) ts =
    if not (is_transitive (get_relation_schema s left.relation))
    then transitive_left s limit claims rest ts
    else then_more (transitive_right s limit left claims ts) (transitive_left s limit claims rest)

-- `_propose_transitive_closure`
unfoldable pub propose_transitive_closure : State → ℕ → List Claim → List Transition
unfolding transitive_left transitive_right
propose_transitive_closure s limit claims = proposals_of (transitive_left s limit claims claims [])

abbrev pub equal_claim : (subject relation object left right : String) → Claim → Claim → Transition
equal_claim subject relation object left right equality claim =
    supported_claim subject relation object left right
      (concat
        ("Propagate equality from " ∷ claim_text equality ∷ " through " ∷ claim_text claim ∷ []))
      "Adds equality-propagated supported claim"

-- The two tests of the inner loop of `_propose_equality_propagation`
unfoldable pub replace_subject : State → Claim → Claim → List Transition
replace_subject s equality claim =
    if claim.subject == equality.object
      && not (is_some (find_claim s equality.subject claim.relation claim.object []))
    then equal_claim equality.subject claim.relation claim.object equality.id claim.id equality
        claim
      ∷ []
    else []

unfoldable pub replace_object : State → Claim → Claim → List Transition
replace_object s equality claim =
    if claim.object == equality.subject
      && not (is_some (find_claim s claim.subject claim.relation equality.object []))
    then equal_claim claim.subject claim.relation equality.object claim.id equality.id equality
        claim
      ∷ []
    else []

unfoldable pub propagate_equality : State → Claim → List Claim → List Transition
propagate_equality s equality [] = []
propagate_equality s equality (claim ∷ rest) =
    (if claim.id == equality.id || claim.relation == "equals"
      then []
      else replace_subject s equality claim ++ replace_object s equality claim)
    ++ propagate_equality s equality rest

abbrev pub is_equality : Claim → Bool
is_equality claim = claim.relation == "equals" && is_final claim.status

unfoldable pub propagate_each : State → List Claim → List Claim → List Transition
unfolding propagate_equality
propagate_each s claims [] = []
propagate_each s claims (equality ∷ rest) =
    propagate_equality s equality claims ++ propagate_each s claims rest

-- `_propose_equality_propagation`
unfoldable pub propose_equality_propagation : State → List Claim → List Transition
unfolding propagate_each replace_subject replace_object
propose_equality_propagation s claims = propagate_each s claims (filterb is_equality claims)

abbrev pub contradiction_of : String → Claim → Claim → Transition
contradiction_of subject left right = record {
  type = "RecordContradiction";
  args =
      ("element_id", text left.id)
      ∷ (
        "reason",
        text (concat (subject ∷ " equals both " ∷ left.object ∷ " and " ∷ right.object ∷ [])),
      )
      ∷ ("related_element_ids", texts (right.id ∷ []) (concat ("['" ∷ right.id ∷ "']" ∷ [])))
      ∷ ("severity", text "high")
      ∷ [];
  description = concat ("Record conflicting equality for " ∷ subject ∷ []);
  expected_effect = "Contradiction candidate is indexed";
  source = "rule_based";
}

-- `equals_by_subject`, here of whole claims
unfoldable pub group_equalities : Dict String (List Claim) → List Claim → Dict String (List Claim)
group_equalities d [] = d
group_equalities d (c ∷ cs) =
    group_equalities
      (if is_equality c then set d c.subject (or_nil (get d c.subject) ++ c ∷ []) else d) cs

-- `for right in entries[index + 1 :]`
unfoldable pub contradict_rest : State → String → Claim → List Claim → List Transition
contradict_rest s subject left [] = []
contradict_rest s subject left (right ∷ rest) =
    (if left.object == right.object || not (is_empty (get_contradictions_for s left.id))
      then []
      else contradiction_of subject left right ∷ [])
    ++ contradict_rest s subject left rest

unfoldable pub contradict_entries : State → String → List Claim → List Transition
unfolding contradict_rest
contradict_entries s subject [] = []
contradict_entries s subject (left ∷ rest) =
    contradict_rest s subject left rest ++ contradict_entries s subject rest

unfoldable pub contradict_groups : State → Dict String (List Claim) → List Transition
unfolding contradict_entries
contradict_groups s [] = []
contradict_groups s ((subject, entries) ∷ groups) =
    contradict_entries s subject entries ++ contradict_groups s groups

-- `_propose_contradiction_candidates`
unfoldable pub propose_contradiction_candidates : State → List Claim → List Transition
unfolding contradict_groups group_equalities
propose_contradiction_candidates s claims = contradict_groups s (group_equalities [] claims)

-- `value != text`, where a TruthStatus is the text of its value
abbrev pub differs : Option Value → String → Bool
differs (some (text t)) s = not (t == s)
differs (some (status st)) s = not (status_value st == s)
differs _ s = true

-- The key of the sort of `_goal_first`
unfoldable pub misses : Goal → Transition → Bool
misses g t =
    differs (get t.args "subject") g.subject
    || differs (get t.args "relation") g.relation
    || differs (get t.args "object") g.object

-- `sorted`, which is stable, by that key: False comes before True.
unfoldable pub insert_proposal : Goal → Transition → List Transition → List Transition
insert_proposal g t [] = t ∷ []
insert_proposal g t (u ∷ us) =
    if misses g t && not (misses g u) then u ∷ insert_proposal g t us else t ∷ u ∷ us

unfoldable pub sort_proposals : Goal → List Transition → List Transition
unfolding insert_proposal
sort_proposals g [] = []
sort_proposals g (t ∷ ts) = insert_proposal g t (sort_proposals g ts)

unfoldable pub goal_first : List Transition → Option Goal → List Transition
unfolding sort_proposals
goal_first ts none = ts
goal_first ts (some g) = sort_proposals g ts

-- `propose`
unfoldable pub propose : ℕ → State → Option Goal → List Transition
unfolding goal_first
propose limit s goal =
    let claims = values s.claims in
    goal_first
      (take limit (
        propose_transitive_closure s limit claims
        ++ (propose_equality_propagation s claims ++ propose_contradiction_candidates s claims)))
      goal
