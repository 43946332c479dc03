-- ===== src/Trust/Promoter/Conflicted.antt =====
-- `TrustPromoter.evaluate_claim` (src/vcse/trust/promoter.py) with conflicts: what it decides, and
-- when it raises.
use text.Mathlib.TextEquality.{eq_iff}
use vcse.Prelude.{
  ℕ, suc, ◌≡◌, ◌≢◌, refl, sym, ap, ◌∙◌, subst, Bool, true, false, not, ◌||◌, ◌==◌, string_eq,
  String, Option, none, contains, if_both, ltb, arith,
}
use vcse.Number.{Number}
use vcse.Value.{Value}
use vcse.Dict.{Dict}
use vcse.Trust.Policy.{TrustPolicy}
use vcse.Trust.Staleness.{Days, StalenessResult, text_of, evaluate_staleness}
use vcse.Trust.Tiers.{
  Checked, tiers, fine, trust_error, is_valid_tier, is_closed_tier, can_transition,
  validate_transition, validate_transition_path,
}
use vcse.Trust.Promoter.{
  TrustPromoter, TrustDecision, Evaluated, decided, refused, decision_of, conclude, evidence_of,
  evaluate_read, evaluate_claim, decide,
}
use vcse.Trust.Promoter.Reading.{
  overflow, too_large, proof_count_of, verifier_confidence_of, claim_id_of,
}
use vcse.Trust.Promoter.Split.{evaluate_claim_split}
use vcse.Trust.Promoter.Stages.{Evidence, Progress, check_conflicts, check_stale, final_progress}

-- The claim is deprecated, or its tier is none of the tiers.
unfoldable pub is_refused_tier : String → Bool
is_refused_tier tier = tier == "T6_DEPRECATED" || not (contains tier tiers)

abbrev IsConflicted : Progress → Type 0
IsConflicted p = p.target ≡ "T7_CONFLICTED"

final-IsConflicted :
    (f : Number → String) (policy : TrustPolicy) (current : String) (e : Evidence)
    (s : StalenessResult) (n : ℕ)
    → e.conflict_count ≡ suc n
    → IsConflicted (final_progress f policy current e s)
unfolding final_progress check_conflicts check_stale
final-IsConflicted f policy current e s n some_there =
    if_both IsConflicted s.stale _ _ (λ _. conflicted _) (λ _. conflicted _)
  where
    conflicted : (p : Progress) → IsConflicted (check_conflicts e p)
    conflicted p =
        if_both IsConflicted (ltb 0 e.conflict_count) _ p (λ _. refl)
          (λ k. absurd (ground (arith, k, some_there)))

can_conflict :
    (current : String)
    → (current == "T6_DEPRECATED") ≡ false
    → can_transition current "T7_CONFLICTED" ≡ true
unfolding can_transition is_closed_tier
can_conflict current h =
    let R : Bool → Type 0 = λ b. b ≡ true in
    if_both R (current == "T7_CONFLICTED") _ _ (λ _. refl)
      (λ other.
        if_both R (is_closed_tier current) _ _ (λ closed. absurd (ground (arith, closed, other, h)))
          (λ _. refl))

deprecated_stays :
    (current : String)
    → (current == "T6_DEPRECATED") ≡ true
    → can_transition current "T7_CONFLICTED" ≡ false
unfolding can_transition is_closed_tier
deprecated_stays current h =
    subst (λ c. can_transition c "T7_CONFLICTED" ≡ false)
      (sym ((eq_iff current "T6_DEPRECATED").0 h)) refl

abbrev IsRefused : Checked → Type 0
IsRefused c = (t : String) × (r : String) × (c ≡ trust_error t r)

-- The check of the change to T7_CONFLICTED
path-IsRefused :
    (current : String)
    → is_refused_tier current ≡ true
    → IsRefused (validate_transition_path current "T7_CONFLICTED")
unfolding is_refused_tier validate_transition_path is_closed_tier validate_transition is_valid_tier
path-IsRefused current h =
    if_both IsRefused (not (is_valid_tier current) || not (is_valid_tier "T7_CONFLICTED")) _ _
      (λ _. (_, _, refl))
      (λ ok.
        if_both IsRefused (not (can_transition current "T7_CONFLICTED")) _ _ (λ _. (_, _, refl))
          (λ can. absurd (stuck (ground (arith, ok, h)) can)))
  where
    stuck :
        (current == "T6_DEPRECATED") ≡ true
        → not (can_transition current "T7_CONFLICTED") ≡ false
        → ⊥
    stuck k can = cc (ap not (deprecated_stays current k), can)

path_fine :
    (current : String)
    → is_refused_tier current ≡ false
    → validate_transition_path current "T7_CONFLICTED" ≡ fine
unfolding is_refused_tier validate_transition_path is_closed_tier validate_transition is_valid_tier
    contains
path_fine current h =
    let Q : Checked → Type 0 = λ c. c ≡ fine in
    if_both Q (not (is_valid_tier current) || not (is_valid_tier "T7_CONFLICTED")) _ _
      (λ bad. absurd (ground (arith, bad, h)))
      (λ _.
        if_both Q (not (can_transition current "T7_CONFLICTED")) _ _
          (λ bad. absurd (stuck (can_conflict current (ground (arith, h))) bad)) (λ _. refl))
  where
    stuck :
        can_transition current "T7_CONFLICTED" ≡ true
        → not (can_transition current "T7_CONFLICTED") ≡ true
        → ⊥
    stuck k bad = cc (ap not k, bad)

-- How a claim with conflicts ends
abbrev pub IsConflictEnd : (tier : String) → Evaluated → Type 0
IsConflictEnd tier end =
    (is_refused_tier tier ≡ true → (t : String) × (r : String) × (end ≡ refused t r))
    × (is_refused_tier tier ≡ false
        → (d : TrustDecision) × (end ≡ decided d) × (d.recommended_tier ≡ "T7_CONFLICTED"))

conflicted_stays : (current : String) → current ≡ "T7_CONFLICTED" → is_refused_tier current ≡ false
unfolding is_refused_tier contains
conflicted_stays current e = ap is_refused_tier e

conclude-IsConflictEnd :
    (id current : String) (e : Evidence) (p : Progress)
    → IsConflicted p
    → IsConflictEnd current (conclude id current e p)
unfolding conclude
conclude-IsConflictEnd id current e p at =
    let made = decision_of id current e p in
    if_both (IsConflictEnd current) (not (p.target == current)) _ _
      (λ _. (
        λ h. let (t, r, k) = path-IsRefused current h in (t, r, decided_by _ k),
        λ h. (made, decided_by _ (path_fine current h), at),
      ))
      (λ same. (λ h. absurd (apart same h), λ h. (made, refl, at)))
  where
    decided_by :
        (c : Checked)
        → validate_transition_path current "T7_CONFLICTED" ≡ c
        → decide (validate_transition_path current p.target) (decision_of id current e p)
          ≡ decide c (decision_of id current e p)
    decided_by c k =
        ap (λ s. decide (validate_transition_path current s) (decision_of id current e p)) at
        ∙ ap (λ x. decide x (decision_of id current e p)) k

    apart : not (p.target == current) ≡ false → is_refused_tier current ≡ true → ⊥
    apart same h =
        cc (conflicted_stays current (sym (ground (arith, same, eq_iff p.target current)) ∙ at), h)

module _ {Moment : Type 0} (fromisoformat : String → Option Moment) (days_since : Moment → Days)
    (upper : String → String) (int_of float_of : String → Option Number)
    (to_float : Number → Option Number) (float_text : Number → String) (t : TrustPromoter)
    (claim : Dict String Value) (support_count conflicts : ℕ) where
  read-IsConflictEnd :
      (n : ℕ) (c : Option Number) (stale : StalenessResult)
      → IsConflictEnd
          (text_of claim "trust_tier" "T0_CANDIDATE")
          (evaluate_read upper float_text t claim support_count (suc conflicts) n c stale)
  unfolding evaluate_read
  read-IsConflictEnd n c stale =
      let current = text_of claim "trust_tier" "T0_CANDIDATE" in
      let e = evidence_of upper t claim support_count (suc conflicts) n c in
      conclude-IsConflictEnd (claim_id_of claim) current e
        (final_progress float_text t.policy current e stale)
        (final-IsConflicted float_text t.policy current e stale conflicts refl)

  -- With a conflict, and unless the proof count is an infinity, the confidence is too large for a
  -- float or the time lies outside the years 1 to 9999 in UTC, a claim that is deprecated or whose
  -- tier is none of the tiers is refused with a TrustError, and every other claim is recommended for
  -- T7_CONFLICTED.
  pub evaluate_claim-IsConflictEnd :
      proof_count_of int_of claim ≢ overflow
      → verifier_confidence_of float_of to_float claim ≢ too_large
      → evaluate_staleness fromisoformat days_since claim t.staleness_policy ≢ none
      → IsConflictEnd (text_of claim "trust_tier" "T0_CANDIDATE") (
          evaluate_claim fromisoformat days_since upper int_of float_of to_float float_text t claim
            support_count
            (suc conflicts))
  evaluate_claim-IsConflictEnd counts confides dates =
      evaluate_claim_split (IsConflictEnd (text_of claim "trust_tier" "T0_CANDIDATE")) fromisoformat
        days_since upper int_of float_of to_float float_text t claim support_count (suc conflicts)
        read-IsConflictEnd (λ e. absurd (counts e)) (λ e. absurd (confides e))
        (λ e. absurd (dates e))
