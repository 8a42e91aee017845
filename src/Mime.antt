-- ===== src/Mime.antt =====
-- The MIME side: src/mime.
pub mod Encodings
