-- ===== src/Configs/Terms.antt =====
-- The durations of runtime/src/configs/mod.rs: in slots and eras for BABE and staking, in blocks for
-- elections and governance. A duration in blocks is a `BlockNumber`, a `u32`, made of the constants of
-- runtime/src/configs/constants.rs when the runtime is compiled.
use testchain.Base.{ℕ, ◌+◌, ◌*◌, ◌/◌, ◌≤◌, ◌≡◌, arith}
use testchain.Constants.{hours, days, millisecs_per_block, epoch_duration_in_blocks}
use testchain.RuntimeApi.Babe.{epoch_duration}

-- `ExpectedBlockTime`, in milliseconds
abbrev pub expected_block_time : ℕ
expected_block_time = millisecs_per_block

-- `SessionsPerEra`, `BondingDuration` and `SlashDeferDuration`, the last two in eras
abbrev pub sessions_per_era : ℕ
sessions_per_era = 6

abbrev pub bonding_duration : ℕ
bonding_duration = 2

abbrev pub slash_defer_duration : ℕ
slash_defer_duration = 1

-- `ReportLongevity`
unfoldable pub report_longevity : ℕ
report_longevity = bonding_duration * sessions_per_era * epoch_duration

-- `HistoryDepth`, in eras, and `OffchainRepeat`, in blocks
abbrev pub history_depth : ℕ
history_depth = 84

abbrev pub offchain_repeat : ℕ
offchain_repeat = 5

-- `SignedPhase` and `UnsignedPhase`
unfoldable pub signed_phase : ℕ
signed_phase = epoch_duration_in_blocks / 4

unfoldable pub unsigned_phase : ℕ
unsigned_phase = epoch_duration_in_blocks / 4

-- `SpendPeriod`, `TipCountdown` and `SpendPayoutPeriod`
abbrev pub spend_period : ℕ
spend_period = 1 * days

abbrev pub tip_countdown : ℕ
tip_countdown = 1 * days

abbrev pub spend_payout_period : ℕ
spend_payout_period = 30 * days

-- `LaunchPeriod`, `VotingPeriod`, `FastTrackVotingPeriod`, `EnactmentPeriod` and `CooloffPeriod`
abbrev pub launch_period : ℕ
launch_period = 8 * hours

abbrev pub voting_period : ℕ
voting_period = 8 * hours

abbrev pub fast_track_voting_period : ℕ
fast_track_voting_period = 2 * hours

abbrev pub enactment_period : ℕ
enactment_period = hours

abbrev pub cooloff_period : ℕ
cooloff_period = hours

-- `CouncilMotionDuration` and `TechnicalMotionDuration`
abbrev pub council_motion_duration : ℕ
council_motion_duration = 5 * days

abbrev pub technical_motion_duration : ℕ
technical_motion_duration = 5 * days

-- `TermDuration`
abbrev pub term_duration : ℕ
term_duration = 7 * days

-- The era of a slot, where an era is `SessionsPerEra` epochs and none is missed.
abbrev era_of : ℕ → ℕ
era_of slot = slot / (sessions_per_era * epoch_duration)

-- A report of BABE lives until stake that was bonded at its slot may be withdrawn: from every slot,
-- `ReportLongevity` slots later it is exactly `BondingDuration` eras later.
pub era_of-report_longevity :
    (slot : ℕ) → era_of (slot + report_longevity) ≡ era_of slot + bonding_duration
unfolding report_longevity
era_of-report_longevity slot = omega arith

-- Both phases of an election take half of the session's blocks, and the workers repeat within one.
pub phases_fit :
    (2 * (signed_phase + unsigned_phase) ≡ epoch_duration_in_blocks)
    × (offchain_repeat ≤ unsigned_phase)
unfolding signed_phase unsigned_phase
phases_fit = (omega arith, omega arith)
