-- ===== src/Configs/Limits.antt =====
-- runtime/src/configs/mod.rs, lines 119 to 132, 506 to 517, 832 and 952 to 953: the limits of a block,
-- and the limits that the miner, the collectives and the scheduler take of them.
use testchain.Base.{ℕ, ◌*◌, Option, some}
use testchain.Base.OptionMonad.{◌>>=◌}
use testchain.Base.Words.{u64_max}
use testchain.Weight.{WeightOps}

-- `DispatchClass`
pub data DispatchClass : Type 0 where
  normal operational mandatory : DispatchClass

-- What `frame_system::limits`, `Perbill` and the weight constants of FRAME give. A `Perbill` is its
-- number of parts of a billion.
pub record LimitOps (W : WeightOps) : Type 1 where
  pub BlockWeights : Type 0
  pub BlockLength : Type 0
  pub weight_ref_time_per_second : ℕ
  pub block_execution_weight : W.Weight
  pub with_sensible_defaults : W.Weight → ℕ → BlockWeights
  pub max_block : BlockWeights → W.Weight
  pub max_extrinsic : BlockWeights → DispatchClass → Option W.Weight
  pub max_with_normal_ratio : ℕ → ℕ → BlockLength
  pub max_length : BlockLength → DispatchClass → ℕ
  -- `Perbill::from_rational`
  pub from_rational : ℕ → ℕ → ℕ
  -- `Perbill * u32` and `Perbill * Weight`
  pub mul : ℕ → ℕ → ℕ
  pub mul_weight : ℕ → W.Weight → W.Weight
  pub saturating_sub_weight : W.Weight → W.Weight → W.Weight

-- `Perbill::from_percent`
abbrev pub from_percent : ℕ → ℕ
from_percent percent = percent * 10_000_000

-- `NORMAL_DISPATCH_RATIO`
abbrev pub normal_dispatch_ratio : ℕ
normal_dispatch_ratio = from_percent 75

module _ (W : WeightOps) (L : LimitOps W) where
  open W use {Weight, from_parts}
  open L use {BlockWeights, BlockLength, with_sensible_defaults, max_with_normal_ratio}

  -- `RuntimeBlockWeights`
  unfoldable pub runtime_block_weights : BlockWeights
  runtime_block_weights =
      with_sensible_defaults (from_parts (2 * L.weight_ref_time_per_second) u64_max)
        normal_dispatch_ratio

  -- `RuntimeBlockLength`
  unfoldable pub runtime_block_length : BlockLength
  runtime_block_length = max_with_normal_ratio (5 * 1024 * 1024) normal_dispatch_ratio

  -- `MinerMaxWeight`; the `expect` is `none`.
  unfoldable pub miner_max_weight : Option Weight
  miner_max_weight = do
    max_extrinsic ← L.max_extrinsic runtime_block_weights normal
    some (L.saturating_sub_weight max_extrinsic L.block_execution_weight)

  -- `MinerMaxLength`
  unfoldable pub miner_max_length : ℕ
  miner_max_length = L.mul (L.from_rational 9 10) (L.max_length runtime_block_length normal)

  -- `MaxCollectivesProposalWeight`
  unfoldable pub max_collectives_proposal_weight : Weight
  max_collectives_proposal_weight =
      L.mul_weight (from_percent 50) (L.max_block runtime_block_weights)

  -- `MaximumSchedulerWeight`
  unfoldable pub maximum_scheduler_weight : Weight
  maximum_scheduler_weight = L.mul_weight (from_percent 80) (L.max_block runtime_block_weights)
