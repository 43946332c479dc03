-- ===== src/Transition.antt =====
-- src/vcse/transitions: `Transition` of state_transition.py. `validate` judges a transition in a
-- state, and `apply` runs it on a clone.
pub mod Args
pub mod Validate
pub mod Apply
pub mod Steps
pub mod Raises
