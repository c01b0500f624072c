-- ===== src/Configs/Settings/Validators.antt =====
-- runtime/src/configs/mod.rs: the settings of the election of validators, of staking and of the pools.
use testchain.Base.{[], ◌∷◌}
use testchain.Pallets.{
  balances, election_provider_multi_phase, nomination_pools, session, staking, timestamp,
  transaction_payment, treasury, voter_list,
}
use testchain.Configs.Bounds.{max_active_validators}
use testchain.Configs.Terms.{
  signed_phase, unsigned_phase, offchain_repeat, sessions_per_era, bonding_duration,
  slash_defer_duration, history_depth,
}
use testchain.Configs.Elections.{
  multi_phase_unsigned_priority, signed_reward_base, signed_fixed_deposit, signed_deposit_byte,
  max_exposure_page_size, max_controllers_in_deprecation_batch, unstake_deposit, batch_size,
  max_eras_to_check_per_block, post_unbond_pools_window, max_points_to_balance,
}
use testchain.Genesis.Stakers.{max_nominations}
use testchain.Configs.Settings.{Table, pallet, runtime, unit, number, named, ◌$◌}

-- `onchain::Config`
abbrev pub onchain_settings : Table
onchain_settings =
    ("System", runtime)
    ∷ (
      "Solver",
      named "SequentialPhragmen"
          $ named "AccountId"
          $ (named "pallet_election_provider_multi_phase::SolutionAccuracyOf" $ runtime),
    )
    ∷ (
      "DataProvider",
      named "<Runtime as pallet_election_provider_multi_phase::Config>::DataProvider",
    )
    ∷ ("WeightInfo", named "frame_election_provider_support::weights::SubstrateWeight" $ runtime)
    ∷ ("MaxWinners", named "<Runtime as pallet_election_provider_multi_phase::Config>::MaxWinners")
    ∷ ("Bounds", named "ElectionBounds")
    ∷ []

-- `MinerConfig`
abbrev pub miner_settings : Table
miner_settings =
    ("AccountId", named "AccountId")
    ∷ ("MaxLength", named "MinerMaxLength")
    ∷ ("MaxWeight", named "MinerMaxWeight")
    ∷ ("Solution", named "NposSolution16")
    ∷ (
      "MaxVotesPerVoter",
      named
          "<<Self as pallet_election_provider_multi_phase::Config>::DataProvider as ElectionDataProvider>::MaxVotesPerVoter",
    )
    ∷ ("MaxWinners", number max_active_validators)
    ∷ []

-- `pallet_election_provider_multi_phase::Config`
abbrev pub election_provider_multi_phase_settings : Table
election_provider_multi_phase_settings =
    ("RuntimeEvent", named "RuntimeEvent")
    ∷ ("Currency", pallet balances)
    ∷ ("EstimateCallFee", pallet transaction_payment)
    ∷ ("SignedPhase", number signed_phase)
    ∷ ("UnsignedPhase", number unsigned_phase)
    ∷ ("BetterSignedThreshold", unit)
    ∷ ("OffchainRepeat", number offchain_repeat)
    ∷ ("MinerTxPriority", number multi_phase_unsigned_priority)
    ∷ ("MinerConfig", runtime)
    ∷ ("SignedMaxSubmissions", number 10)
    ∷ ("SignedRewardBase", number signed_reward_base)
    ∷ (
      "SignedDepositBase",
      named "pallet_election_provider_multi_phase::signed::GeometricDepositBase"
          $ named "Balance"
          $ number signed_fixed_deposit
          $ named "SignedDepositIncreaseFactor",
    )
    ∷ ("SignedDepositByte", number signed_deposit_byte)
    ∷ ("SignedMaxRefunds", number 3)
    ∷ ("SignedDepositWeight", unit)
    ∷ ("SignedMaxWeight", named "MinerMaxWeight")
    ∷ ("SlashHandler", unit)
    ∷ ("RewardHandler", unit)
    ∷ ("DataProvider", pallet staking)
    ∷ ("Fallback", named "onchain::OnChainExecution" $ named "OnChainSeqPhragmen")
    ∷ ("GovernanceFallback", named "onchain::OnChainExecution" $ named "OnChainSeqPhragmen")
    ∷ (
      "Solver",
      named "SequentialPhragmen"
          $ named "AccountId"
          $ (named "SolutionAccuracyOf" $ runtime)
          $ named "OffchainRandomBalancing",
    )
    ∷ ("ForceOrigin", named "EnsureRootOrHalfCouncil")
    ∷ ("MaxWinners", number max_active_validators)
    ∷ ("ElectionBounds", named "ElectionBounds")
    ∷ ("BenchmarkingConfig", named "ElectionProviderBenchmarkConfig")
    ∷ (
      "WeightInfo",
      named "pallet_election_provider_multi_phase::weights::SubstrateWeight" $ runtime,
    )
    ∷ []

-- `pallet_staking::Config`
abbrev pub staking_settings : Table
staking_settings =
    ("NominationsQuota", named "pallet_staking::FixedNominationsQuota" $ number max_nominations)
    ∷ ("Currency", pallet balances)
    ∷ ("CurrencyBalance", named "Balance")
    ∷ ("UnixTime", pallet timestamp)
    ∷ ("CurrencyToVote", named "U128CurrencyToVote")
    ∷ ("RewardRemainder", pallet treasury)
    ∷ ("RuntimeEvent", named "RuntimeEvent")
    ∷ ("Slash", pallet treasury)
    ∷ ("Reward", unit)
    ∷ ("SessionsPerEra", number sessions_per_era)
    ∷ ("BondingDuration", number bonding_duration)
    ∷ ("SlashDeferDuration", number slash_defer_duration)
    ∷ (
      "AdminOrigin",
      named "EitherOfDiverse"
          $ (named "EnsureRoot" $ named "AccountId")
          $ (named "pallet_collective::EnsureProportionAtLeast"
              $ named "AccountId"
              $ named "CouncilCollective"
              $ number 3
              $ number 4),
    )
    ∷ ("SessionInterface", runtime)
    ∷ ("EraPayout", named "pallet_staking::ConvertCurve" $ named "RewardCurve")
    ∷ ("NextNewSession", pallet session)
    ∷ ("MaxExposurePageSize", number max_exposure_page_size)
    ∷ ("ElectionProvider", pallet election_provider_multi_phase)
    ∷ ("GenesisElectionProvider", named "onchain::OnChainExecution" $ named "OnChainSeqPhragmen")
    ∷ ("VoterList", pallet voter_list)
    ∷ ("TargetList", named "pallet_staking::UseValidatorsMap" $ runtime)
    ∷ ("MaxUnlockingChunks", number 32)
    ∷ ("HistoryDepth", number history_depth)
    ∷ ("EventListeners", pallet nomination_pools)
    ∷ ("MaxControllersInDeprecationBatch", number max_controllers_in_deprecation_batch)
    ∷ ("WeightInfo", named "pallet_staking::weights::SubstrateWeight" $ runtime)
    ∷ ("BenchmarkingConfig", named "StakingBenchmarkingConfig")
    ∷ ("DisablingStrategy", named "pallet_staking::UpToLimitDisablingStrategy")
    ∷ []

-- `pallet_fast_unstake::Config`
abbrev pub fast_unstake_settings : Table
fast_unstake_settings =
    ("RuntimeEvent", named "RuntimeEvent")
    ∷ ("Currency", pallet balances)
    ∷ ("Deposit", number unstake_deposit)
    ∷ (
      "ControlOrigin",
      named "EitherOfDiverse"
          $ (named "EnsureRoot" $ named "AccountId")
          $ (named "pallet_collective::EnsureProportionAtLeast"
              $ named "AccountId"
              $ named "TechnicalCollective"
              $ number 1
              $ number 1),
    )
    ∷ ("BatchSize", number batch_size)
    ∷ ("MaxErasToCheckPerBlock", number max_eras_to_check_per_block)
    ∷ ("WeightInfo", named "pallet_fast_unstake::weights::SubstrateWeight" $ runtime)
    ∷ ("Staking", pallet staking)
    ∷ []

-- `pallet_bags_list::Config`
abbrev pub voter_list_settings : Table
voter_list_settings =
    ("RuntimeEvent", named "RuntimeEvent")
    ∷ ("ScoreProvider", pallet staking)
    ∷ ("BagThresholds", named "BagThresholds")
    ∷ ("Score", named "VoteWeight")
    ∷ ("WeightInfo", named "pallet_bags_list::weights::SubstrateWeight" $ runtime)
    ∷ []

-- `pallet_nomination_pools::Config`
abbrev pub nomination_pools_settings : Table
nomination_pools_settings =
    ("WeightInfo", unit)
    ∷ ("RuntimeEvent", named "RuntimeEvent")
    ∷ ("Currency", pallet balances)
    ∷ ("RuntimeFreezeReason", named "RuntimeFreezeReason")
    ∷ ("RewardCounter", named "FixedU128")
    ∷ ("BalanceToU256", named "BalanceToU256")
    ∷ ("U256ToBalance", named "U256ToBalance")
    ∷ (
      "StakeAdapter",
      named "pallet_nomination_pools::adapter::TransferStake" $ runtime $ pallet staking,
    )
    ∷ ("PostUnbondingPoolsWindow", number post_unbond_pools_window)
    ∷ ("MaxMetadataLen", number 256)
    ∷ ("MaxUnbonding", number 8)
    ∷ ("PalletId", named "NominationPoolsPalletId")
    ∷ ("MaxPointsToBalance", number max_points_to_balance)
    ∷ (
      "AdminOrigin",
      named "EitherOfDiverse"
          $ (named "EnsureRoot" $ named "AccountId")
          $ (named "pallet_collective::EnsureProportionAtLeast"
              $ named "AccountId"
              $ named "CouncilCollective"
              $ number 3
              $ number 4),
    )
    ∷ []
