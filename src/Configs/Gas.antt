-- ===== src/Configs/Gas.antt =====
-- runtime/src/configs/mod.rs, lines 253 to 326: the gas of a block, what it stands for in weight, proof
-- and storage, and the parameters of its price.
use testchain.Base.{ℕ, ◌*◌, ◌/◌, ◌≤◌, ◌<◌, ◌≡◌, ap, ◌∙◌, arith}
use testchain.Weight.{WeightOps, IsLawful}
use testchain.Configs.Limits.{LimitOps, normal_dispatch_ratio, runtime_block_weights}
use testchain.Configs.Budgets.{IsLimits, max_block_lem}

-- `BLOCK_GAS_LIMIT`, `BlockGasLimit`
abbrev pub block_gas_limit : ℕ
block_gas_limit = 75_000_000

-- `MAX_POV_SIZE`
abbrev pub max_pov_size : ℕ
max_pov_size = 5 * 1024 * 1024

-- `MAX_STORAGE_GROWTH`
abbrev pub max_storage_growth : ℕ
max_storage_growth = 400 * 1024

-- `WEIGHT_MILLISECS_PER_BLOCK`
abbrev pub weight_millisecs_per_block : ℕ
weight_millisecs_per_block = 2000

-- `BoundDivision`, `DefaultBaseFeePerGas` and, in millionths, `DefaultElasticity`
abbrev pub bound_division : ℕ
bound_division = 1024

abbrev pub default_base_fee_per_gas : ℕ
default_base_fee_per_gas = 1_000_000_000

abbrev pub default_elasticity : ℕ
default_elasticity = 125_000

-- `lower`, `ideal` and `upper` of `BaseFeeThreshold`, in millionths
abbrev pub base_fee_lower : ℕ
base_fee_lower = 0

abbrev pub base_fee_ideal : ℕ
base_fee_ideal = 500_000

abbrev pub base_fee_upper : ℕ
base_fee_upper = 1_000_000

-- `GasLimitPovSizeRatio`
unfoldable pub gas_limit_pov_size_ratio : ℕ
gas_limit_pov_size_ratio = block_gas_limit / max_pov_size

-- `GasLimitStorageGrowthRatio`
unfoldable pub gas_limit_storage_growth_ratio : ℕ
gas_limit_storage_growth_ratio = block_gas_limit / max_storage_growth

-- `WeightPerGas`, with `fp_evm::weight_per_gas`.
unfoldable pub weight_per_gas : (W : WeightOps) → (ℕ → ℕ → ℕ → ℕ) → W.Weight
weight_per_gas W evm_weight_per_gas =
    W.from_parts
      (evm_weight_per_gas block_gas_limit normal_dispatch_ratio weight_millisecs_per_block) 0

module _ (W : WeightOps) (L : LimitOps W) (evm_weight_per_gas : ℕ → ℕ → ℕ → ℕ) where
  -- The documented behaviour of `fp_evm::weight_per_gas`: the share of the block's time, a billion a
  -- millisecond, divided by the gas.
  pub record IsGas : Type 0 where
    pub weight_per_gas_lem :
        (limit ratio millisecs : ℕ)
        → 0 < limit
        → evm_weight_per_gas limit ratio millisecs ≡ L.mul ratio (1_000_000_000 * millisecs) / limit

  weight_per_gas-eq :
      IsLawful W → IsLimits W L → IsGas → W.ref_time (weight_per_gas W evm_weight_per_gas) ≡ 20_000
  unfolding weight_per_gas
  weight_per_gas-eq A I G =
      let share : L.mul normal_dispatch_ratio 2_000_000_000_000 ≡ 1_500_000_000_000 =
        let h = I.mul_lem normal_dispatch_ratio 2_000_000_000_000 in omega (arith, h) in
      let same : evm_weight_per_gas block_gas_limit normal_dispatch_ratio weight_millisecs_per_block
          ≡ 20_000 =
        G.weight_per_gas_lem block_gas_limit normal_dispatch_ratio weight_millisecs_per_block
          (omega arith)
        ∙ ap (λ n. n / block_gas_limit) share in
      rw (weight_per_gas, same) (A.ref_time-from_parts 20_000 0 (omega arith) (omega arith))

  -- Gas that fits in a block takes no more time than the share of the block for normal extrinsics.
  -- The proof and the storage that it is granted, the gas divided by the ratios, exceed the sizes that
  -- the ratios are made from by less than three percent and less than a tenth of a percent; but for
  -- all of the block's gas both do exceed them.
  pub gas_lem :
      IsLawful W
      → IsLimits W L
      → IsGas
      → (gas : ℕ) → gas ≤ block_gas_limit
      → (4 * (gas * W.ref_time (weight_per_gas W evm_weight_per_gas))
          ≤ 3 * W.ref_time (L.max_block (runtime_block_weights W L)))
        × (100 * (gas / gas_limit_pov_size_ratio) < 103 * max_pov_size)
        × (1000 * (gas / gas_limit_storage_growth_ratio) < 1001 * max_storage_growth)
        × (max_pov_size < block_gas_limit / gas_limit_pov_size_ratio)
        × (max_storage_growth < block_gas_limit / gas_limit_storage_growth_ratio)
  unfolding gas_limit_pov_size_ratio gas_limit_storage_growth_ratio
  gas_lem A I G gas small = (
    rw (weight_per_gas-eq A I G, (max_block_lem W L A I).0) (omega (arith, small)),
    omega (arith, small),
    omega (arith, small),
    omega arith,
    omega arith,
  )
