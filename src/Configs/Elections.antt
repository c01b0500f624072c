-- ===== src/Configs/Elections.antt =====
-- The sizes, prices and priorities of runtime/src/configs/mod.rs: elections of validators, heartbeats,
-- unstaking, treasury, democracy and pools, and the locks of an account.
use testchain.Base.{ℕ, ◌*◌, ◌-◌, ◌/◌, ◌<◌, ◌≤◌, arith}
use testchain.Base.Words.{u64_max, saturating_add}
use testchain.Constants.{cents, dollars}

-- `MaxLocks` and `MaxReserves`
abbrev pub max_locks : ℕ
max_locks = 50

abbrev pub max_reserves : ℕ
max_reserves = 50

-- `ImOnlineUnsignedPriority`, `StakingUnsignedPriority` and `MultiPhaseUnsignedPriority`
abbrev pub im_online_unsigned_priority : ℕ
im_online_unsigned_priority = u64_max

abbrev pub staking_unsigned_priority : ℕ
staking_unsigned_priority = u64_max / 2

abbrev pub multi_phase_unsigned_priority : ℕ
multi_phase_unsigned_priority = staking_unsigned_priority - 1

-- `MaxKeys`, `MaxPeerInHeartbeats` and `MaxPeerDataEncodingSize`
abbrev pub max_keys : ℕ
max_keys = 10_000

abbrev pub max_peer_in_heartbeats : ℕ
max_peer_in_heartbeats = 10_000

abbrev pub max_peer_data_encoding_size : ℕ
max_peer_data_encoding_size = 1_000

-- `SignedRewardBase`, `SignedFixedDeposit` and `SignedDepositByte`
abbrev pub signed_reward_base : ℕ
signed_reward_base = dollars

abbrev pub signed_fixed_deposit : ℕ
signed_fixed_deposit = dollars

abbrev pub signed_deposit_byte : ℕ
signed_deposit_byte = cents

-- `MaxElectingVoters`, `MaxElectableTargets`, `MaxOnChainElectingVoters` and
-- `MaxOnChainElectableTargets`
abbrev pub max_electing_voters : ℕ
max_electing_voters = 40_000

abbrev pub max_electable_targets : ℕ
max_electable_targets = 10_000

abbrev pub max_on_chain_electing_voters : ℕ
max_on_chain_electing_voters = 5000

abbrev pub max_on_chain_electable_targets : ℕ
max_on_chain_electable_targets = 1250

-- `MaxExposurePageSize`, `MaxControllersInDeprecationBatch` and `MaxNominators`
abbrev pub max_exposure_page_size : ℕ
max_exposure_page_size = 256

abbrev pub max_controllers_in_deprecation_batch : ℕ
max_controllers_in_deprecation_batch = 5900

abbrev pub max_nominators : ℕ
max_nominators = 64

-- `Deposit`, `BatchSize` and `MaxErasToCheckPerBlock` of unstaking
abbrev pub unstake_deposit : ℕ
unstake_deposit = dollars

abbrev pub batch_size : ℕ
batch_size = 64

abbrev pub max_eras_to_check_per_block : ℕ
max_eras_to_check_per_block = 1

-- `TipReportDepositBase`, `DataDepositPerByte`, `MaximumReasonLength` and `MaxApprovals`
abbrev pub tip_report_deposit_base : ℕ
tip_report_deposit_base = 1 * dollars

abbrev pub data_deposit_per_byte : ℕ
data_deposit_per_byte = 1 * cents

abbrev pub maximum_reason_length : ℕ
maximum_reason_length = 300

abbrev pub max_approvals : ℕ
max_approvals = 100

-- `MinimumDeposit` and `MaxProposals` of democracy, `CouncilMaxProposals` and `TechnicalMaxProposals`
abbrev pub minimum_deposit : ℕ
minimum_deposit = 100 * dollars

abbrev pub max_proposals : ℕ
max_proposals = 100

abbrev pub council_max_proposals : ℕ
council_max_proposals = 100

abbrev pub technical_max_proposals : ℕ
technical_max_proposals = 100

-- `DesiredRunnersUp`, `MaxVotesPerVoter`, `MaxVoters` and `MaxCandidates`
abbrev pub desired_runners_up : ℕ
desired_runners_up = 7

abbrev pub max_votes_per_voter : ℕ
max_votes_per_voter = 16

abbrev pub max_voters : ℕ
max_voters = 512

abbrev pub max_candidates : ℕ
max_candidates = 64

-- `PreimageBaseDeposit` and `PreimageByteDeposit`
abbrev pub preimage_base_deposit : ℕ
preimage_base_deposit = dollars

abbrev pub preimage_byte_deposit : ℕ
preimage_byte_deposit = cents

-- `PostUnbondPoolsWindow` and `MaxPointsToBalance`
abbrev pub post_unbond_pools_window : ℕ
post_unbond_pools_window = 4

abbrev pub max_points_to_balance : ℕ
max_points_to_balance = 10

-- A priority of elections with what a solution's score adds to it, in a `u64`, is below the priority of
-- heartbeats while the score is at most 2^63, and never above it.
pub heartbeats_first :
    (score : ℕ)
    → (saturating_add u64_max multi_phase_unsigned_priority score ≤ im_online_unsigned_priority)
      × (score ≤ 9223372036854775808
          → saturating_add u64_max multi_phase_unsigned_priority score
            < im_online_unsigned_priority)
heartbeats_first score = (ground arith, λ h. ground arith)
