-- ===== src/Configs/Bounds.antt =====
-- The bounds that runtime/src/configs/mod.rs sets for members, authorities and validators.
use testchain.Base.{ℕ, ◌≤◌, arith}

-- `MaxAuthorities` of GRANDPA and of BABE.
abbrev pub grandpa_max_authorities : ℕ
grandpa_max_authorities = 32

abbrev pub babe_max_authorities : ℕ
babe_max_authorities = 100

-- `MaxActiveValidators`
abbrev pub max_active_validators : ℕ
max_active_validators = 1000

-- `CouncilMaxMembers`, `TechnicalMaxMembers` and `DesiredMembers`
abbrev pub council_max_members : ℕ
council_max_members = 100

abbrev pub technical_max_members : ℕ
technical_max_members = 100

abbrev pub desired_members : ℕ
desired_members = 13

-- The source's `const_assert!`: the elected members fit in the council.
pub desired_members_fit : desired_members ≤ council_max_members
desired_members_fit = omega arith
