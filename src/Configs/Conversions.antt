-- ===== src/Configs/Conversions.antt =====
-- `BalanceToU256`, `U256ToBalance` and `OffchainRandomBalancing` of runtime/src/configs/mod.rs.
use testchain.Base.{ℕ, ◌%◌, ◌≤◌, ◌≡◌, Option, some, arith, leb, if◌then◌else◌, ◌↔◌}
use testchain.Base.Words.{u32_max, u128_max, saturating_add}

-- `BalanceToU256::convert`
unfoldable pub balance_to_u256 : ℕ → ℕ
balance_to_u256 balance = balance

-- `U256ToBalance::convert`
unfoldable pub u256_to_balance : ℕ → ℕ
u256_to_balance n = if leb n u128_max then n else u128_max

-- `MINER_MAX_ITERATIONS`
abbrev pub miner_max_iterations : ℕ
miner_max_iterations = 10

pub record BalancingConfig : Type 0 where
  pub iterations : ℕ
  pub tolerance : ℕ

abbrev iterations_of : ℕ → ℕ → ℕ
iterations_of random max = if leb max 0 then 0 else random % saturating_add u32_max max 1

-- `OffchainRandomBalancing::get`, with the word that is decoded from the offchain seed.
unfoldable pub offchain_random_balancing : ℕ → Option BalancingConfig
offchain_random_balancing random =
    some (record { iterations = iterations_of random miner_max_iterations; tolerance = 0 })

-- Pool arithmetic in 256 bits comes back exactly: every balance does, and the conversion from 256
-- bits is the largest balance not above its argument.
u256_to_balance_lem :
    (balance n : ℕ)
    → balance ≤ u128_max
    → (u256_to_balance (balance_to_u256 balance) ≡ balance)
      × ((balance ≤ u256_to_balance n) ↔ (balance_to_u256 balance ≤ n))
unfolding balance_to_u256 u256_to_balance
u256_to_balance_lem balance n h = ground arith
