-- ===== src/Configs/Settings/Virtual.antt =====
-- runtime/src/configs/mod.rs: the settings of the EVM, of its fees, and of the contracts.
use testchain.Base.{[], ◌∷◌, Bool, true, false, ◌*◌}
use testchain.Pallets.{
  babe, balances, base_fee, evm_chain_id, randomness_collective_flip, timestamp,
}
use testchain.Configs.Gas.{
  block_gas_limit, gas_limit_pov_size_ratio, gas_limit_storage_growth_ratio, bound_division,
  default_base_fee_per_gas, default_elasticity,
}
use testchain.Configs.Bonds.{deposit_per_item, deposit_per_byte, default_deposit_limit}
use testchain.Configs.Settings.{Table, pallet, runtime, unit, number, flag, named, ◌$◌}

-- `pallet_evm_chain_id::Config`
abbrev pub evm_chain_id_settings : Table
evm_chain_id_settings = []

-- `pallet_evm::Config`
abbrev pub evm_settings : Table
evm_settings =
    ("AccountProvider", named "pallet_evm::FrameSystemAccountProvider" $ runtime)
    ∷ ("FeeCalculator", pallet base_fee)
    ∷ ("GasWeightMapping", named "pallet_evm::FixedGasWeightMapping" $ runtime)
    ∷ ("WeightPerGas", named "WeightPerGas")
    ∷ ("BlockHashMapping", named "pallet_ethereum::EthereumBlockHashMapping" $ runtime)
    ∷ ("CallOrigin", named "EnsureAddressTruncated")
    ∷ ("WithdrawOrigin", named "EnsureAddressTruncated")
    ∷ ("AddressMapping", named "HashedAddressMapping" $ named "BlakeTwo256")
    ∷ ("Currency", pallet balances)
    ∷ ("RuntimeEvent", named "RuntimeEvent")
    ∷ ("PrecompilesType", named "FrontierPrecompiles" $ runtime)
    ∷ ("PrecompilesValue", named "PrecompilesValue")
    ∷ ("ChainId", pallet evm_chain_id)
    ∷ ("BlockGasLimit", number block_gas_limit)
    ∷ ("Runner", named "pallet_evm::runner::stack::Runner" $ runtime)
    ∷ ("OnChargeTransaction", unit)
    ∷ ("OnCreate", unit)
    ∷ ("FindAuthor", named "FindAuthorTruncated" $ pallet babe)
    ∷ ("GasLimitPovSizeRatio", number gas_limit_pov_size_ratio)
    ∷ ("GasLimitStorageGrowthRatio", number gas_limit_storage_growth_ratio)
    ∷ ("Timestamp", pallet timestamp)
    ∷ ("WeightInfo", named "pallet_evm::weights::SubstrateWeight" $ runtime)
    ∷ []

-- `pallet_ethereum::Config`
abbrev pub ethereum_settings : Table
ethereum_settings =
    ("RuntimeEvent", named "RuntimeEvent")
    ∷ ("StateRoot", named "pallet_ethereum::IntermediateStateRoot" $ named "Self::Version")
    ∷ ("PostLogContent", named "PostBlockAndTxnHashes")
    ∷ ("ExtraDataLength", number 30)
    ∷ []

-- `pallet_dynamic_fee::Config`
abbrev pub dynamic_fee_settings : Table
dynamic_fee_settings = ("MinGasPriceBoundDivisor", number bound_division) ∷ []

-- `pallet_base_fee::Config`
abbrev pub base_fee_settings : Table
base_fee_settings =
    ("RuntimeEvent", named "RuntimeEvent")
    ∷ ("Threshold", named "BaseFeeThreshold")
    ∷ ("DefaultBaseFeePerGas", number default_base_fee_per_gas)
    ∷ ("DefaultElasticity", number default_elasticity)
    ∷ []

-- `pallet_insecure_randomness_collective_flip::Config`
abbrev pub randomness_collective_flip_settings : Table
randomness_collective_flip_settings = []

-- `pallet_contracts::Config`
abbrev pub contracts_settings : Bool → Table
contracts_settings true =
    ("Time", pallet timestamp)
    ∷ ("Randomness", pallet randomness_collective_flip)
    ∷ ("Currency", pallet balances)
    ∷ ("RuntimeEvent", named "RuntimeEvent")
    ∷ ("RuntimeCall", named "RuntimeCall")
    ∷ ("CallFilter", named "Nothing")
    ∷ ("DepositPerItem", number deposit_per_item)
    ∷ ("DepositPerByte", number deposit_per_byte)
    ∷ ("DefaultDepositLimit", number default_deposit_limit)
    ∷ ("CallStack", named "[pallet_contracts::Frame<Self>; 5]")
    ∷ ("WeightPrice", named "pallet_transaction_payment::Pallet" $ runtime)
    ∷ ("WeightInfo", named "pallet_contracts::weights::SubstrateWeight" $ runtime)
    ∷ ("ChainExtension", unit)
    ∷ ("Schedule", named "Schedule")
    ∷ ("AddressGenerator", named "pallet_contracts::DefaultAddressGenerator")
    ∷ ("MaxCodeLen", number (123 * 1024))
    ∷ ("MaxStorageKeyLen", number 128)
    ∷ ("UnsafeUnstableInterface", flag false)
    ∷ ("UploadOrigin", named "EnsureSigned" $ named "Self::AccountId")
    ∷ ("InstantiateOrigin", named "EnsureSigned" $ named "Self::AccountId")
    ∷ ("MaxDebugBufferLen", number (2 * 1024 * 1024))
    ∷ ("MaxTransientStorageSize", number (1 * 1024 * 1024))
    ∷ ("RuntimeHoldReason", named "RuntimeHoldReason")
    ∷ ("Migrations", named "pallet_contracts::migration::codegen::BenchMigrations")
    ∷ ("MaxDelegateDependencies", number 32)
    ∷ ("CodeHashLockupDepositPercent", named "CodeHashLockupDepositPercent")
    ∷ ("Debug", unit)
    ∷ ("Environment", unit)
    ∷ ("ApiVersion", unit)
    ∷ ("Xcm", unit)
    ∷ []
contracts_settings false =
    ("Time", pallet timestamp)
    ∷ ("Randomness", pallet randomness_collective_flip)
    ∷ ("Currency", pallet balances)
    ∷ ("RuntimeEvent", named "RuntimeEvent")
    ∷ ("RuntimeCall", named "RuntimeCall")
    ∷ ("CallFilter", named "Nothing")
    ∷ ("DepositPerItem", number deposit_per_item)
    ∷ ("DepositPerByte", number deposit_per_byte)
    ∷ ("DefaultDepositLimit", number default_deposit_limit)
    ∷ ("CallStack", named "[pallet_contracts::Frame<Self>; 5]")
    ∷ ("WeightPrice", named "pallet_transaction_payment::Pallet" $ runtime)
    ∷ ("WeightInfo", named "pallet_contracts::weights::SubstrateWeight" $ runtime)
    ∷ ("ChainExtension", unit)
    ∷ ("Schedule", named "Schedule")
    ∷ ("AddressGenerator", named "pallet_contracts::DefaultAddressGenerator")
    ∷ ("MaxCodeLen", number (123 * 1024))
    ∷ ("MaxStorageKeyLen", number 128)
    ∷ ("UnsafeUnstableInterface", flag false)
    ∷ ("UploadOrigin", named "EnsureSigned" $ named "Self::AccountId")
    ∷ ("InstantiateOrigin", named "EnsureSigned" $ named "Self::AccountId")
    ∷ ("MaxDebugBufferLen", number (2 * 1024 * 1024))
    ∷ ("MaxTransientStorageSize", number (1 * 1024 * 1024))
    ∷ ("RuntimeHoldReason", named "RuntimeHoldReason")
    ∷ ("Migrations", unit)
    ∷ ("MaxDelegateDependencies", number 32)
    ∷ ("CodeHashLockupDepositPercent", named "CodeHashLockupDepositPercent")
    ∷ ("Debug", unit)
    ∷ ("Environment", unit)
    ∷ ("ApiVersion", unit)
    ∷ ("Xcm", unit)
    ∷ []
