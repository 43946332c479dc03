-- ===== src/Packs.antt =====
-- The knowledge packs of src/vcse/packs: their life (lifecycle.py), the registry of the installed
-- ones (registry.py), and the order in which they are loaded (resolver.py).
pub mod Lifecycle
pub mod Registry
pub mod Version
pub mod Resolver
