-- ===== src/Core.antt =====
-- The representation that the parts share: src/core.
pub mod Message
