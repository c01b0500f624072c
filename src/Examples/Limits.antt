-- ===== src/Examples/Limits.antt =====
-- The limits of blocks, gas and deposits, over numbers.
use native.Mathlib.Nat.{div-mul-le_self, lt-div-mul-add}
use testchain.Base.{◌<◌, ℕ, ◌+◌, ◌-◌, ◌*◌, ◌/◌, ◌≤◌, some, ◌≡◌, refl, arith}
use testchain.Base.Words.{u64_max, saturating_add}
use testchain.Weight.{WeightOps, IsLawful}
use testchain.Configs.Limits.{
  DispatchClass, normal, operational, mandatory, LimitOps, runtime_block_weights, miner_max_weight,
  miner_max_length, max_collectives_proposal_weight, maximum_scheduler_weight,
}
use testchain.Configs.Budgets.{IsLimits, Within, budgets_lem}
use testchain.Configs.Gas.{
  block_gas_limit, max_pov_size, max_storage_growth, gas_limit_pov_size_ratio,
  gas_limit_storage_growth_ratio, weight_per_gas, IsGas, gas_lem,
}

-- A weight is its time and its size.
abbrev pub weights : WeightOps
weights = record {
  Weight = ℕ × ℕ;
  DbWeight = ℕ × ℕ;
  from_parts = λ r p. (r, p);
  ref_time = λ w. w.0;
  proof_size = λ w. w.1;
  saturating_add_weight = λ v w. (saturating_add u64_max v.0 w.0, saturating_add u64_max v.1 w.1);
  reads = λ db n. (db.0 * n, 0);
  writes = λ db n. (db.1 * n, 0);
}

pub weights-IsLawful : IsLawful weights
weights-IsLawful = record {
  ref_time-from_parts = λ r p hr hp. refl;
  proof_size-from_parts = λ r p hr hp. refl;
  ref_time-saturating_add = λ v w. refl;
  proof_size-saturating_add = λ v w. refl;
}

-- A billionth of a number, rounded to a nearest.
abbrev rounded : ℕ → ℕ
rounded n = (2 * n + 1_000_000_000) / 2_000_000_000

rounded_lem :
    (n : ℕ)
    → (2 * (1_000_000_000 * rounded n) ≤ 2 * n + 1_000_000_000)
      × (2 * n ≤ 2 * (1_000_000_000 * rounded n) + 1_000_000_000)
rounded_lem n = (omega arith, omega arith)

abbrev length_of : ℕ × ℕ → DispatchClass → ℕ
length_of l normal = rounded (l.1 * l.0)
length_of l operational = l.0
length_of l mandatory = l.0

-- The limits of a block are what it is made from.
abbrev pub limits : LimitOps weights
limits = record {
  BlockWeights = (ℕ × ℕ) × ℕ;
  BlockLength = ℕ × ℕ;
  weight_ref_time_per_second = 1_000_000_000_000;
  block_execution_weight = (5_000_000, 0);
  with_sensible_defaults = λ w r. (w, r);
  max_block = λ b. b.0;
  max_extrinsic = λ b class. some (rounded (b.1 * b.0.0), rounded (b.1 * b.0.1));
  max_with_normal_ratio = λ n r. (n, r);
  max_length = length_of;
  from_rational = λ p q. p * 1_000_000_000 / q;
  mul = λ p n. rounded (p * n);
  mul_weight = λ p w. (rounded (p * w.0), rounded (p * w.1));
  saturating_sub_weight = λ v w. (v.0 - w.0, v.1 - w.1);
}

pub limits-IsLimits : IsLimits weights limits
limits-IsLimits = record {
  per_second_lem = refl;
  max_block_lem = λ w r. refl;
  max_extrinsic_lem =
      λ w r. ((rounded (r * w.0), rounded (r * w.1)), refl, omega arith, omega arith);
  max_length_lem = λ n r. refl;
  from_rational_lem = λ p q le pos. (div-mul-le_self (p * 1_000_000_000) q, lt-div-mul-add pos);
  mul_lem = λ p n. rounded_lem (p * n);
  ref_time-mul_weight = λ p w. refl;
  proof_size-mul_weight = λ p w. refl;
  ref_time-saturating_sub = λ v w. refl;
  proof_size-saturating_sub = λ v w. refl;
}

budgets_lem_example :
    let max : ℕ × ℕ = limits.max_block (runtime_block_weights weights limits) in
    (max.0 ≡ 2_000_000_000_000)
    × (max.1 ≡ u64_max)
    × Within weights limits
        (max_collectives_proposal_weight weights limits)
        (maximum_scheduler_weight weights limits)
    × Within weights limits (maximum_scheduler_weight weights limits) max
    × ((m : ℕ × ℕ) × (miner_max_weight weights limits ≡ some m) × (4 * m.0 ≤ 3 * max.0))
    × (miner_max_length weights limits ≡ 3_538_944)
budgets_lem_example = budgets_lem weights limits weights-IsLawful limits-IsLimits

-- The share of the block's time that a unit of gas takes.
abbrev evm_weight_per_gas : ℕ → ℕ → ℕ → ℕ
evm_weight_per_gas limit ratio millisecs = rounded (ratio * (1_000_000_000 * millisecs)) / limit

evm_weight_per_gas-IsGas : IsGas weights limits evm_weight_per_gas
evm_weight_per_gas-IsGas = record { weight_per_gas_lem = λ limit ratio millisecs pos. refl }

gas_lem_example :
    (4 * (21_000 * (weight_per_gas weights evm_weight_per_gas).0)
      ≤ 3 * (limits.max_block (runtime_block_weights weights limits)).0)
    × (100 * (21_000 / gas_limit_pov_size_ratio) < 103 * max_pov_size)
    × (1000 * (21_000 / gas_limit_storage_growth_ratio) < 1001 * max_storage_growth)
    × (max_pov_size < block_gas_limit / gas_limit_pov_size_ratio)
    × (max_storage_growth < block_gas_limit / gas_limit_storage_growth_ratio)
gas_lem_example =
    gas_lem weights limits evm_weight_per_gas weights-IsLawful limits-IsLimits
      evm_weight_per_gas-IsGas 21_000 (omega arith)
