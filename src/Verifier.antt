-- ===== src/Verifier.antt =====
-- src/vcse/verifier: judgements on a world state.
pub mod Base
pub mod Claims
pub mod Constraints
pub mod Contradictions
pub mod Goals
pub mod Final
pub mod Stack
