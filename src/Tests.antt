-- ===== src/Tests.antt =====
-- Runs of the model at small inputs, and the theorems at inputs that meet their hypotheses.
pub mod Samples
pub mod Memory
pub mod Transition
pub mod Verifier
pub mod Search
pub mod Engine
pub mod Ledger
pub mod Merkle
pub mod Domain
pub mod Interner
pub mod Inference
pub mod Ontology
pub mod Packs
pub mod Policy
pub mod Resolver
pub mod Trust
