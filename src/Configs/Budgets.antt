-- ===== src/Configs/Budgets.antt =====
-- The limits that the runtime (runtime/src/configs/mod.rs) shares a block out by.
use testchain.Base.{ℕ, ◌+◌, ◌*◌, ◌-◌, ◌≤◌, ◌<◌, ◌≡◌, refl, some, arith}
use testchain.Base.Words.{u64_max}
use testchain.Weight.{WeightOps, IsLawful}
use testchain.Configs.Limits.{
  normal, LimitOps, normal_dispatch_ratio, from_percent, runtime_block_weights,
  runtime_block_length, miner_max_weight, miner_max_length, max_collectives_proposal_weight,
  maximum_scheduler_weight,
}

abbrev billion : ℕ
billion = 1_000_000_000

module _ (W : WeightOps) (L : LimitOps W) where
  open W use {Weight, ref_time, proof_size}

  -- Both parts of a weight within those of another.
  abbrev pub Within : Weight → Weight → Type 0
  Within v w = (ref_time v ≤ ref_time w) × (proof_size v ≤ proof_size w)

  -- The documented behaviour of the limits: a multiplication by a `Perbill` rounds to a nearest
  -- number, `from_rational` rounds down, and a block's defaults are made of its expected weight.
  pub record IsLimits : Type 0 where
    pub per_second_lem : L.weight_ref_time_per_second ≡ 1_000_000_000_000
    pub max_block_lem : (w : Weight) (r : ℕ) → L.max_block (L.with_sensible_defaults w r) ≡ w
    pub max_extrinsic_lem :
        (w : Weight) (r : ℕ)
        → (m : Weight) × (L.max_extrinsic (L.with_sensible_defaults w r) normal ≡ some m)
          × (ref_time m ≤ L.mul r (ref_time w))
          × (proof_size m ≤ L.mul r (proof_size w))
    pub max_length_lem : (n r : ℕ) → L.max_length (L.max_with_normal_ratio n r) normal ≡ L.mul r n
    pub from_rational_lem :
        (p q : ℕ)
        → p ≤ q
        → 0 < q
        → (L.from_rational p q * q ≤ p * billion) × (p * billion < L.from_rational p q * q + q)
    pub mul_lem :
        (p n : ℕ)
        → (2 * (billion * L.mul p n) ≤ 2 * (p * n) + billion)
          × (2 * (p * n) ≤ 2 * (billion * L.mul p n) + billion)
    pub ref_time-mul_weight :
        (p : ℕ) (w : Weight) → ref_time (L.mul_weight p w) ≡ L.mul p (ref_time w)
    pub proof_size-mul_weight :
        (p : ℕ) (w : Weight) → proof_size (L.mul_weight p w) ≡ L.mul p (proof_size w)
    pub ref_time-saturating_sub :
        (v w : Weight) → ref_time (L.saturating_sub_weight v w) ≡ ref_time v - ref_time w
    pub proof_size-saturating_sub :
        (v w : Weight) → proof_size (L.saturating_sub_weight v w) ≡ proof_size v - proof_size w

  module _ (A : IsLawful W) (I : IsLimits) where
    -- A block takes two seconds, and any proof.
    pub max_block_lem :
        let max = L.max_block (runtime_block_weights W L) in
        (ref_time max ≡ 2_000_000_000_000) × (proof_size max ≡ u64_max)
    unfolding runtime_block_weights
    max_block_lem =
        rw (I.max_block_lem _ _, I.per_second_lem)
          (
            A.ref_time-from_parts 2_000_000_000_000 u64_max (omega arith) (omega arith),
            A.proof_size-from_parts 2_000_000_000_000 u64_max (omega arith) (omega arith),
          )

    -- The miner's limit exists, and is the normal extrinsics' share of a block at most.
    miner_max_weight_lem :
        (m : Weight) × (miner_max_weight W L ≡ some m)
        × (4 * ref_time m ≤ 3 * ref_time (L.max_block (runtime_block_weights W L)))
    unfolding miner_max_weight runtime_block_weights
    miner_max_weight_lem =
        let w = W.from_parts (2 * L.weight_ref_time_per_second) u64_max in
        let (m, e, in_time, in_size) = I.max_extrinsic_lem w normal_dispatch_ratio in
        let share = I.mul_lem normal_dispatch_ratio (ref_time w) in
        let less = I.ref_time-saturating_sub m L.block_execution_weight in
        (
          L.saturating_sub_weight m L.block_execution_weight,
          rw e (refl),
          rw (I.max_block_lem w normal_dispatch_ratio) (omega (arith, in_time, share, less)),
        )

    -- The miner's solutions take nine tenths of three quarters of five mebibytes, exactly.
    miner_max_length_lem : miner_max_length W L ≡ 3_538_944
    unfolding miner_max_length runtime_block_length
    miner_max_length_lem =
        let nine : L.from_rational 9 10 ≡ 900_000_000 =
          let h = I.from_rational_lem 9 10 (omega arith) (omega arith) in omega (arith, h) in
        let share : L.mul normal_dispatch_ratio 5_242_880 ≡ 3_932_160 =
          let h = I.mul_lem normal_dispatch_ratio 5_242_880 in omega (arith, h) in
        let h = I.mul_lem 900_000_000 3_932_160 in
        rw (miner_max_length, I.max_length_lem 5_242_880 normal_dispatch_ratio, nine, share)
          (omega (arith, h))

    -- Within a block of two seconds of time and an unlimited proof, a call that a collective approves
    -- fits in what the scheduler may spend, and that fits in the block; a solution of the miner takes
    -- three quarters of the block's time at most, and nine tenths of the normal extrinsics' length.
    pub budgets_lem :
        let max = L.max_block (runtime_block_weights W L) in
        (ref_time max ≡ 2_000_000_000_000)
        × (proof_size max ≡ u64_max)
        × Within (max_collectives_proposal_weight W L) (maximum_scheduler_weight W L)
        × Within (maximum_scheduler_weight W L) max
        × ((m : Weight) × (miner_max_weight W L ≡ some m) × (4 * ref_time m ≤ 3 * ref_time max))
        × (miner_max_length W L ≡ 3_538_944)
    unfolding max_collectives_proposal_weight maximum_scheduler_weight
    budgets_lem =
        let max = L.max_block (runtime_block_weights W L) in
        let (time, size) = max_block_lem in
        let half = I.mul_lem (from_percent 50) in
        let most = I.mul_lem (from_percent 80) in
        (
          time,
          size,
          simp (I.ref_time-mul_weight, I.proof_size-mul_weight, time, size)
              (
                omega (arith, half 2_000_000_000_000, most 2_000_000_000_000),
                omega (arith, half u64_max, most u64_max),
              ),
          simp (I.ref_time-mul_weight, I.proof_size-mul_weight, time, size)
              (omega (arith, most 2_000_000_000_000), omega (arith, most u64_max)),
          miner_max_weight_lem,
          miner_max_length_lem,
        )
