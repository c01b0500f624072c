-- ===== src/Examples.antt =====
-- Concrete parameters of the models, and the theorems at concrete inputs.
mod Pallet
pub mod Accounts
mod Evm
mod Runtime
pub mod Startup
mod Commands
mod Chain
mod Apis
pub mod Limits
mod Fees
mod Wiring
