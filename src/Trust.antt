-- ===== src/Trust.antt =====
-- The trust layer of src/vcse/trust: tiers, policies, sources, staleness and the promotion of claims.
pub mod Policy
pub mod Tiers
pub mod Scorer
pub mod Staleness
pub mod Promoter
