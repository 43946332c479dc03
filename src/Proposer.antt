-- ===== src/Proposer.antt =====
pub mod Rules
pub mod Domain
