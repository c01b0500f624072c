-- ===== src/Constants/Deposits.antt =====
-- `deposit` of runtime/src/configs/constants.rs on its arguments.
use testchain.Base.{ℕ, ◌+◌, ◌*◌, ◌≤◌, ◌≡◌, arith}
use testchain.Base.Words.{u32_max, u128_max}
use testchain.Constants.{cents, deposit}

-- For all `u32` arguments `deposit` is the exact price, 15 cents an item and 6 cents a byte, and
-- lies below a thousandth of the largest `Balance`.
pub deposit_exact :
    (items bytes : ℕ)
    → items ≤ u32_max
    → bytes ≤ u32_max
    → (deposit items bytes ≡ (15 * items + 6 * bytes) * cents)
      × (1000 * deposit items bytes ≤ u128_max)
unfolding deposit
deposit_exact items bytes hi hb = omega arith
