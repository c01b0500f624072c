-- ===== src/RuntimeApi.antt =====
-- runtime/src/apis.rs: the runtime APIs.
pub mod Calls
pub mod SelfContained
pub mod Blocks
pub mod Pending
pub mod Equivocations
pub mod Maintenance
pub mod Staking
pub mod Quotes
pub mod EvmViews
pub mod Fees
pub mod Core
pub mod Epochs
pub mod Babe
pub mod Contracts
pub mod DryRuns
pub mod Ethereum
pub mod Estimates
pub mod Inspect
