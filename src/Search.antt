-- ===== src/Search.antt =====
pub mod Node
pub mod Score
pub mod Steps
pub mod Beam
