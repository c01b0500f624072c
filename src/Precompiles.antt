-- ===== src/Precompiles.antt =====
-- runtime/src/configs/precompiles.rs: definitions, and the theorems about them.
pub mod Defs
pub mod Answers
