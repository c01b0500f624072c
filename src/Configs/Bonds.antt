-- ===== src/Configs/Bonds.antt =====
-- The deposits of runtime/src/configs/mod.rs: parameters of the elections and of the contracts, which
-- `deposit` of runtime/src/configs/constants.rs computes.
use testchain.Base.{ℕ, ◌+◌, ◌*◌, ◌≤◌, ◌≡◌, arith}
use testchain.Base.Words.{u32_max}
use testchain.Constants.{dollars, deposit}
use testchain.Constants.Deposits.{deposit_exact}

-- `ExistentialDeposit`
abbrev pub existential_deposit : ℕ
existential_deposit = 1000

-- `CandidacyBond`
abbrev pub candidacy_bond : ℕ
candidacy_bond = 10 * dollars

-- `VotingBondBase`
unfoldable pub voting_bond_base : ℕ
voting_bond_base = deposit 1 64

-- `VotingBondFactor`
unfoldable pub voting_bond_factor : ℕ
voting_bond_factor = deposit 0 32

-- `DepositPerItem`
unfoldable pub deposit_per_item : ℕ
deposit_per_item = deposit 1 0

-- `DepositPerByte`
unfoldable pub deposit_per_byte : ℕ
deposit_per_byte = deposit 0 1

-- `DefaultDepositLimit`
unfoldable pub default_deposit_limit : ℕ
default_deposit_limit = deposit 1024 (1024 * 1024)

-- Storage is priced by one formula. For all numbers of items and bytes in a `u32`, what contracts pay
-- by the item and by the byte is `deposit` of both. What a voter reserves, the base and the factor a
-- vote, is `deposit` of one item of 64 bytes and 32 bytes a vote, while those bytes fit in a `u32`, and
-- the base is no more than a candidate's bond. The default limit is the price, at the contracts' rates,
-- of 1,024 items and a mebibyte.
deposit_parts :
    (items bytes votes : ℕ)
    → items ≤ u32_max
    → bytes ≤ u32_max
    → 64 + 32 * votes ≤ u32_max
    → (items * deposit_per_item + bytes * deposit_per_byte ≡ deposit items bytes)
      × (voting_bond_base + votes * voting_bond_factor ≡ deposit 1 (64 + 32 * votes))
      × (voting_bond_base ≤ candidacy_bond)
      × (1024 * deposit_per_item + 1048576 * deposit_per_byte ≡ default_deposit_limit)
unfolding voting_bond_base voting_bond_factor deposit_per_item deposit_per_byte
    default_deposit_limit
deposit_parts items bytes votes hi hb hv =
    let one = deposit_exact 1 0 (omega arith) (omega arith) in
    let byte = deposit_exact 0 1 (omega arith) (omega arith) in
    let base = deposit_exact 1 64 (omega arith) (omega arith) in
    let factor = deposit_exact 0 32 (omega arith) (omega arith) in
    let limit = deposit_exact 1024 1048576 (omega arith) (omega arith) in
    let both = deposit_exact items bytes hi hb in
    let voted = deposit_exact 1 (64 + 32 * votes) (omega arith) hv in
    (
      rw (one.0, byte.0, both.0) (omega arith),
      rw (base.0, factor.0, voted.0) (omega arith),
      omega (arith, base.0),
      rw (one.0, byte.0, limit.0) (omega arith),
    )
