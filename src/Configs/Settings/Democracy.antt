-- ===== src/Configs/Settings/Democracy.antt =====
-- runtime/src/configs/mod.rs: the settings of the treasury, democracy, the scheduler and the preimages.
use testchain.Base.{[], ◌∷◌, Bool, true, false}
use testchain.Pallets.{balances, preimage, scheduler, treasury}
use testchain.Configs.Terms.{
  spend_period, spend_payout_period, enactment_period, launch_period, voting_period,
  fast_track_voting_period, cooloff_period,
}
use testchain.Configs.Elections.{
  max_approvals, minimum_deposit, max_proposals, preimage_base_deposit, preimage_byte_deposit,
}
use testchain.Configs.Settings.{Table, pallet, runtime, unit, number, flag, named, ◌$◌}

-- `pallet_treasury::Config`
abbrev pub treasury_settings : Bool → Table
treasury_settings true =
    ("PalletId", named "TreasuryPalletId")
    ∷ ("Currency", pallet balances)
    ∷ (
      "RejectOrigin",
      named "EitherOfDiverse"
          $ (named "EnsureRoot" $ named "AccountId")
          $ (named "pallet_collective::EnsureProportionMoreThan"
              $ named "AccountId"
              $ named "CouncilCollective"
              $ number 1
              $ number 2),
    )
    ∷ ("RuntimeEvent", named "RuntimeEvent")
    ∷ ("SpendPeriod", number spend_period)
    ∷ ("Burn", named "Burn")
    ∷ ("BurnDestination", unit)
    ∷ ("SpendFunds", unit)
    ∷ ("WeightInfo", named "pallet_treasury::weights::SubstrateWeight" $ runtime)
    ∷ ("MaxApprovals", number max_approvals)
    ∷ (
      "SpendOrigin",
      named "EnsureWithSuccess"
          $ (named "EnsureRoot" $ named "AccountId")
          $ named "AccountId"
          $ named "MaxBalance",
    )
    ∷ ("AssetKind", unit)
    ∷ ("Beneficiary", named "AccountId")
    ∷ ("BeneficiaryLookup", named "IdentityLookup" $ named "Self::Beneficiary")
    ∷ ("Paymaster", named "PayFromAccount" $ pallet balances $ named "TreasuryAccount")
    ∷ ("BalanceConverter", named "UnityAssetBalanceConversion")
    ∷ ("PayoutPeriod", number spend_payout_period)
    ∷ ("BenchmarkHelper", unit)
    ∷ []
treasury_settings false =
    ("PalletId", named "TreasuryPalletId")
    ∷ ("Currency", pallet balances)
    ∷ (
      "RejectOrigin",
      named "EitherOfDiverse"
          $ (named "EnsureRoot" $ named "AccountId")
          $ (named "pallet_collective::EnsureProportionMoreThan"
              $ named "AccountId"
              $ named "CouncilCollective"
              $ number 1
              $ number 2),
    )
    ∷ ("RuntimeEvent", named "RuntimeEvent")
    ∷ ("SpendPeriod", number spend_period)
    ∷ ("Burn", named "Burn")
    ∷ ("BurnDestination", unit)
    ∷ ("SpendFunds", unit)
    ∷ ("WeightInfo", named "pallet_treasury::weights::SubstrateWeight" $ runtime)
    ∷ ("MaxApprovals", number max_approvals)
    ∷ (
      "SpendOrigin",
      named "EnsureWithSuccess"
          $ (named "EnsureRoot" $ named "AccountId")
          $ named "AccountId"
          $ named "MaxBalance",
    )
    ∷ ("AssetKind", unit)
    ∷ ("Beneficiary", named "AccountId")
    ∷ ("BeneficiaryLookup", named "IdentityLookup" $ named "Self::Beneficiary")
    ∷ ("Paymaster", named "PayFromAccount" $ pallet balances $ named "TreasuryAccount")
    ∷ ("BalanceConverter", named "UnityAssetBalanceConversion")
    ∷ ("PayoutPeriod", number spend_payout_period)
    ∷ []

-- `pallet_democracy::Config`
abbrev pub democracy_settings : Table
democracy_settings =
    ("RuntimeEvent", named "RuntimeEvent")
    ∷ ("Currency", pallet balances)
    ∷ ("EnactmentPeriod", number enactment_period)
    ∷ ("LaunchPeriod", number launch_period)
    ∷ ("VotingPeriod", number voting_period)
    ∷ ("VoteLockingPeriod", number enactment_period)
    ∷ ("MinimumDeposit", number minimum_deposit)
    ∷ (
      "ExternalOrigin",
      named "pallet_collective::EnsureProportionAtLeast"
          $ named "AccountId"
          $ named "CouncilCollective"
          $ number 1
          $ number 2,
    )
    ∷ (
      "ExternalMajorityOrigin",
      named "pallet_collective::EnsureProportionAtLeast"
          $ named "AccountId"
          $ named "CouncilCollective"
          $ number 3
          $ number 4,
    )
    ∷ (
      "ExternalDefaultOrigin",
      named "pallet_collective::EnsureProportionAtLeast"
          $ named "AccountId"
          $ named "CouncilCollective"
          $ number 1
          $ number 1,
    )
    ∷ ("SubmitOrigin", named "EnsureSigned" $ named "AccountId")
    ∷ (
      "FastTrackOrigin",
      named "pallet_collective::EnsureProportionAtLeast"
          $ named "AccountId"
          $ named "TechnicalCollective"
          $ number 2
          $ number 3,
    )
    ∷ (
      "InstantOrigin",
      named "pallet_collective::EnsureProportionAtLeast"
          $ named "AccountId"
          $ named "TechnicalCollective"
          $ number 1
          $ number 1,
    )
    ∷ ("InstantAllowed", flag true)
    ∷ ("FastTrackVotingPeriod", number fast_track_voting_period)
    ∷ (
      "CancellationOrigin",
      named "pallet_collective::EnsureProportionAtLeast"
          $ named "AccountId"
          $ named "CouncilCollective"
          $ number 2
          $ number 3,
    )
    ∷ (
      "CancelProposalOrigin",
      named "EitherOfDiverse"
          $ (named "EnsureRoot" $ named "AccountId")
          $ (named "pallet_collective::EnsureProportionAtLeast"
              $ named "AccountId"
              $ named "TechnicalCollective"
              $ number 1
              $ number 1),
    )
    ∷ ("BlacklistOrigin", named "EnsureRoot" $ named "AccountId")
    ∷ (
      "VetoOrigin",
      named "pallet_collective::EnsureMember" $ named "AccountId" $ named "TechnicalCollective",
    )
    ∷ ("CooloffPeriod", number cooloff_period)
    ∷ ("Slash", pallet treasury)
    ∷ ("Scheduler", pallet scheduler)
    ∷ ("PalletsOrigin", named "OriginCaller")
    ∷ ("MaxVotes", number 100)
    ∷ ("WeightInfo", named "pallet_democracy::weights::SubstrateWeight" $ runtime)
    ∷ ("MaxProposals", number max_proposals)
    ∷ ("Preimages", pallet preimage)
    ∷ ("MaxDeposits", number 100)
    ∷ ("MaxBlacklisted", number 100)
    ∷ []

-- `pallet_scheduler::Config`
abbrev pub scheduler_settings : Bool → Table
scheduler_settings true =
    ("RuntimeEvent", named "RuntimeEvent")
    ∷ ("RuntimeOrigin", named "RuntimeOrigin")
    ∷ ("PalletsOrigin", named "OriginCaller")
    ∷ ("RuntimeCall", named "RuntimeCall")
    ∷ ("MaximumWeight", named "MaximumSchedulerWeight")
    ∷ ("ScheduleOrigin", named "EnsureRoot" $ named "AccountId")
    ∷ ("MaxScheduledPerBlock", number 512)
    ∷ ("WeightInfo", named "pallet_scheduler::weights::SubstrateWeight" $ runtime)
    ∷ ("OriginPrivilegeCmp", named "EqualPrivilegeOnly")
    ∷ ("Preimages", pallet preimage)
    ∷ []
scheduler_settings false =
    ("RuntimeEvent", named "RuntimeEvent")
    ∷ ("RuntimeOrigin", named "RuntimeOrigin")
    ∷ ("PalletsOrigin", named "OriginCaller")
    ∷ ("RuntimeCall", named "RuntimeCall")
    ∷ ("MaximumWeight", named "MaximumSchedulerWeight")
    ∷ ("ScheduleOrigin", named "EnsureRoot" $ named "AccountId")
    ∷ ("MaxScheduledPerBlock", number 50)
    ∷ ("WeightInfo", named "pallet_scheduler::weights::SubstrateWeight" $ runtime)
    ∷ ("OriginPrivilegeCmp", named "EqualPrivilegeOnly")
    ∷ ("Preimages", pallet preimage)
    ∷ []

-- `pallet_preimage::Config`
abbrev pub preimage_settings : Table
preimage_settings =
    ("WeightInfo", named "pallet_preimage::weights::SubstrateWeight" $ runtime)
    ∷ ("RuntimeEvent", named "RuntimeEvent")
    ∷ ("Currency", pallet balances)
    ∷ ("ManagerOrigin", named "EnsureRoot" $ named "AccountId")
    ∷ (
      "Consideration",
      named "HoldConsideration"
          $ named "AccountId"
          $ pallet balances
          $ named "PreimageHoldReason"
          $ (named "LinearStoragePrice"
              $ number preimage_base_deposit
              $ number preimage_byte_deposit
              $ named "Balance"),
    )
    ∷ []
