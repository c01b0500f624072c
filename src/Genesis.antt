-- ===== src/Genesis.antt =====
-- node/src/chain_spec.rs: the genesis state of the chain.
pub mod Keys
pub mod Endow
pub mod Stakers
pub mod Evm
pub mod State
pub mod Specs
pub mod Load
pub mod Determinism
pub mod Nominations
pub mod Validators
pub mod Panics
pub mod Accounts
pub mod Bonds
pub mod Council
pub mod Fits
