-- ===== src/Text.antt =====
-- Texts: `_norm` of src/vcse/memory/world_state.py, decimal numerals, and the order of texts.
pub mod Decimal
pub mod Norm
pub mod Parts
pub mod Order
