-- ===== src/Trust/Staleness.antt =====
-- `evaluate_staleness` of src/vcse/trust/staleness.py. The parsing of an ISO date-time and the days
-- from it to the current time in UTC are parameters.
use Prim.Native.String.{[] as nil, ◌∷◌ as cons, ◌++◌}
use vcse.Prelude.{
  ℕ, Bool, false, ◌==◌, string_eq, String, Option, none, some, [], ◌∷◌, ltb, if◌then◌else◌,
}
use vcse.Value.{Value, str}
use vcse.Dict.{Dict, get}
use vcse.Trust.Policy.{StalenessPolicy, freshness_for}

-- `_VOLATILE_RELATIONS`
abbrev pub volatile_relations : Dict String ℕ
volatile_relations =
    ("price", 1) ∷ ("current_status", 7) ∷ ("population", 30) ∷ ("ceo", 14) ∷ ("president", 14) ∷ []

pub record StalenessResult : Type 0 where
  pub stale : Bool
  pub reason : String
  pub age_days : ℕ
  pub freshness_days : ℕ

-- What `(now - created.astimezone(timezone.utc)).days` gives: days, a negative number, or the
-- OverflowError of a time that UTC moves out of the years 1 to 9999
pub data Days : Type 0 where
  past : ℕ → Days
  future out_of_years : Days

-- `str(claim.get(key, default))`
unfoldable pub text_of : Dict String Value → (key default : String) → String
text_of claim key default = elim (get claim key) [ none ↦ default | some v ↦ str v ]

-- `text.replace("Z", "+00:00")`
unfoldable pub zulu_offset : String → String
zulu_offset nil = nil
zulu_offset (cons c s) =
    let rest = zulu_offset s in if cons c nil == "Z" then "+00:00" ++ rest else cons c rest

module _ {Moment : Type 0} (fromisoformat : String → Option Moment)
    (days_since : Moment → Days) where
  abbrev freshness : StalenessPolicy → String → ℕ
  freshness policy relation = elim (get volatile_relations relation) [
    | some n ↦ n
    | none ↦ freshness_for policy relation
  ]

  -- The result of a timestamp that is read
  unfoldable pub aged : StalenessPolicy → (relation : String) → (age_days : ℕ) → StalenessResult
  aged policy relation age_days =
      let is_stale = ltb (freshness policy relation) age_days in
      record {
        stale = is_stale;
        reason = if is_stale then "stale" else "fresh";
        age_days = age_days;
        freshness_days = freshness policy relation;
      }

  -- `max(0, days)`; `none` is the OverflowError, which nothing catches.
  unfoldable pub staleness_of :
      StalenessPolicy → (relation : String) → Days → Option StalenessResult
  unfolding aged
  staleness_of policy relation (past n) = some (aged policy relation n)
  staleness_of policy relation future = some (aged policy relation 0)
  staleness_of policy relation out_of_years = none

  unfoldable pub not_stale : StalenessPolicy → (reason : String) → StalenessResult
  not_stale policy reason = record {
    stale = false;
    reason = reason;
    age_days = 0;
    freshness_days = policy.freshness_days;
  }

  unfoldable pub evaluate_staleness : Dict String Value → StalenessPolicy → Option StalenessResult
  unfolding text_of zulu_offset staleness_of not_stale
  evaluate_staleness claim policy =
      let created_at = text_of claim "created_at" "" in
      if created_at == ""
      then some (not_stale policy "missing timestamp")
      else elim (fromisoformat (zulu_offset created_at)) [
        | none ↦ some (not_stale policy "invalid timestamp")
        | some created ↦ staleness_of policy (text_of claim "relation" "") (days_since created)
      ]
