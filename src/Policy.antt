-- ===== src/Policy.antt =====
-- The policies of src/vcse/policy: rules on relations, packs, domains and inference rules
-- (enforcer.py), and rules that are executed after a trust decision (engine.py).
pub mod Enforcer
pub mod Condition
pub mod Engine
