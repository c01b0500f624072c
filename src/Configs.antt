-- ===== src/Configs.antt =====
-- runtime/src/configs/mod.rs: the code and the constants by which the runtime configures its pallets.
pub mod Transactions
pub mod Eras
pub mod Author
pub mod Conversions
pub mod Origins
pub mod Privileges
pub mod Governance
pub mod Minorities
pub mod Bonds
pub mod Gas
pub mod Bounds
pub mod Limits
pub mod Budgets
pub mod Terms
pub mod Elections
pub mod Settings
pub mod Wiring
pub mod Checks
pub mod Strength
pub mod Imbalances
pub mod Accounts
pub mod Parts
pub mod Coinbase
