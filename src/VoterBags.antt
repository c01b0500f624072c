-- ===== src/VoterBags.antt =====
-- runtime/src/configs/voter_bags.rs: the thresholds, and the theorems about them.
pub mod Thresholds
pub mod Order
