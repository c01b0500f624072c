-- ===== src/Configs/Settings/Chain.antt =====
-- runtime/src/configs/mod.rs: the settings of the system, the clock, balances, fees, sudo, the template pallet and the utilities.
use testchain.Base.{[], ◌∷◌}
use testchain.Pallets.{babe, balances, system}
use testchain.Configs.Transactions.{block_hash_count}
use testchain.Genesis.Specs.{ss58_prefix}
use testchain.RuntimeApi.Babe.{minimum_period}
use testchain.Configs.Elections.{max_locks, max_reserves}
use testchain.Configs.Bonds.{existential_deposit}
use testchain.RuntimeApi.Fees.{fee_multiplier}
use testchain.Configs.Settings.{Table, pallet, runtime, unit, number, named, ◌$◌}

-- `frame_system::Config`
abbrev pub system_settings : Table
system_settings =
    ("Block", named "Block")
    ∷ ("BlockWeights", named "RuntimeBlockWeights")
    ∷ ("BlockLength", named "RuntimeBlockLength")
    ∷ ("AccountId", named "AccountId")
    ∷ ("Nonce", named "Nonce")
    ∷ ("Hash", named "Hash")
    ∷ ("BlockHashCount", number block_hash_count)
    ∷ ("DbWeight", named "RocksDbWeight")
    ∷ ("Version", named "Version")
    ∷ ("AccountData", named "pallet_balances::AccountData" $ named "Balance")
    ∷ ("SS58Prefix", number ss58_prefix)
    ∷ ("MaxConsumers", number 16)
    ∷ []

-- `pallet_timestamp::Config`
abbrev pub timestamp_settings : Table
timestamp_settings =
    ("Moment", named "u64")
    ∷ ("OnTimestampSet", pallet babe)
    ∷ ("MinimumPeriod", number minimum_period)
    ∷ ("WeightInfo", unit)
    ∷ []

-- `pallet_balances::Config`
abbrev pub balances_settings : Table
balances_settings =
    ("MaxLocks", number max_locks)
    ∷ ("MaxReserves", number max_reserves)
    ∷ ("ReserveIdentifier", named "[u8; 8]")
    ∷ ("Balance", named "Balance")
    ∷ ("RuntimeEvent", named "RuntimeEvent")
    ∷ ("DustRemoval", unit)
    ∷ ("ExistentialDeposit", number existential_deposit)
    ∷ ("AccountStore", pallet system)
    ∷ ("WeightInfo", named "pallet_balances::weights::SubstrateWeight" $ runtime)
    ∷ ("FreezeIdentifier", named "RuntimeFreezeReason")
    ∷ ("MaxFreezes", named "VariantCountOf" $ named "RuntimeFreezeReason")
    ∷ ("RuntimeHoldReason", named "RuntimeHoldReason")
    ∷ ("RuntimeFreezeReason", named "RuntimeHoldReason")
    ∷ []

-- `pallet_transaction_payment::Config`
abbrev pub transaction_payment_settings : Table
transaction_payment_settings =
    ("RuntimeEvent", named "RuntimeEvent")
    ∷ ("OnChargeTransaction", named "FungibleAdapter" $ pallet balances $ unit)
    ∷ ("OperationalFeeMultiplier", number 5)
    ∷ ("WeightToFee", named "IdentityFee" $ named "Balance")
    ∷ ("LengthToFee", named "IdentityFee" $ named "Balance")
    ∷ ("FeeMultiplierUpdate", named "ConstFeeMultiplier" $ number fee_multiplier)
    ∷ []

-- `pallet_sudo::Config`
abbrev pub sudo_settings : Table
sudo_settings =
    ("RuntimeEvent", named "RuntimeEvent")
    ∷ ("RuntimeCall", named "RuntimeCall")
    ∷ ("WeightInfo", named "pallet_sudo::weights::SubstrateWeight" $ runtime)
    ∷ []

-- `pallet_template::Config`
abbrev pub template_module_settings : Table
template_module_settings =
    ("RuntimeEvent", named "RuntimeEvent")
    ∷ ("WeightInfo", named "pallet_template::weights::SubstrateWeight" $ runtime)
    ∷ []

-- `pallet_utility::Config`
abbrev pub utility_settings : Table
utility_settings =
    ("RuntimeEvent", named "RuntimeEvent")
    ∷ ("RuntimeCall", named "RuntimeCall")
    ∷ ("PalletsOrigin", named "OriginCaller")
    ∷ ("WeightInfo", named "pallet_utility::weights::SubstrateWeight" $ runtime)
    ∷ []
