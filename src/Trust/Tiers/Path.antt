-- ===== src/Trust/Tiers/Path.antt =====
-- What `_validate_transition_path` of src/vcse/trust/promoter.py lets through.
use vcse.Prelude.{◌≡◌, refl, true, string_eq, String, contains, contains-All, All}
use vcse.Trust.Tiers.{
  fine, tier_order, is_valid_tier, is_closed_tier, can_transition, is_forward, validate_transition,
  index, validate_steps, validate_transition_path,
}

abbrev IsFine : String → String → Type 0
IsFine a b = validate_transition_path a b ≡ fine

all-IsFine : All (λ a. All (λ b. IsFine a b) tier_order) tier_order
unfolding validate_transition_path is_closed_tier index validate_steps validate_transition
    is_valid_tier can_transition is_forward contains vcse.Dict.get
all-IsFine = (
  (refl, (refl, (refl, (refl, (refl, (refl, tt)))))),
  (
    (refl, (refl, (refl, (refl, (refl, (refl, tt)))))),
    (
      (refl, (refl, (refl, (refl, (refl, (refl, tt)))))),
      (
        (refl, (refl, (refl, (refl, (refl, (refl, tt)))))),
        (
          (refl, (refl, (refl, (refl, (refl, (refl, tt)))))),
          ((refl, (refl, (refl, (refl, (refl, (refl, tt)))))), tt),
        ),
      ),
    ),
  ),
)

-- Between any two of the tiers from T0_CANDIDATE to T5_CERTIFIED, up or down, the check of the path
-- lets the change through.
pub order_fine :
    (a b : String)
    → contains a tier_order ≡ true
    → contains b tier_order ≡ true
    → validate_transition_path a b ≡ fine
order_fine a b h k =
    contains-All (λ t. IsFine a t) b tier_order
      (contains-All (λ s. All (λ t. IsFine s t) tier_order) a tier_order all-IsFine h) k
