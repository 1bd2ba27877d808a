-- ===== src/Core.antt =====
-- src/core: results, text and identifiers.
pub mod Result
pub mod Text
pub mod Uuid
