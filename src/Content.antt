-- ===== src/Content.antt =====
-- The generation of content: src/content.
pub mod Multilingual
mod Tests
