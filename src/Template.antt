-- ===== src/Template.antt =====
-- pallets/template: the pallet of the repository's own, its dispatchables, weights and their laws.
pub mod Defs
pub mod Calls
pub mod Counter
pub mod Journal
pub mod Weights
pub mod Benchmarks
