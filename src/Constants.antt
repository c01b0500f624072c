-- ===== src/Constants.antt =====
-- runtime/src/configs/constants.rs: the modules `currency` and `time`. A `Balance` is a `u128`, a
-- `BlockNumber` a `u32`. Products of constants are compile-time expressions, which the compiler
-- refuses on overflow; `deposit` keeps its wrap-around written out.
pub mod Deposits
use testchain.Base.{ℕ, ◌+◌, ◌*◌, ◌/◌, ◌%◌, ◌^◌}

-- `mod currency`
abbrev pub millicents : ℕ
millicents = 10_000_000_000_000

abbrev pub cents : ℕ
cents = 1_000 * millicents

abbrev pub dollars : ℕ
dollars = 100 * cents

abbrev pub u128_mod : ℕ
u128_mod = 2 ^ 128

-- `items as Balance * 15 * CENTS + (bytes as Balance) * 6 * CENTS`, each operation modulo 2^128.
unfoldable pub deposit : ℕ → ℕ → ℕ
deposit items bytes =
    (items * 15 % u128_mod * cents % u128_mod + bytes * 6 % u128_mod * cents % u128_mod) % u128_mod

-- `mod time`
abbrev pub millisecs_per_block : ℕ
millisecs_per_block = 6000

abbrev pub slot_duration : ℕ
slot_duration = millisecs_per_block

abbrev pub minutes : ℕ
minutes = 60_000 / millisecs_per_block

abbrev pub hours : ℕ
hours = minutes * 60

abbrev pub days : ℕ
days = hours * 24

abbrev pub epoch_duration_in_blocks : ℕ
epoch_duration_in_blocks = 10 * minutes

-- The source computes the slot fill rate as an `f64`, multiplies and truncates. The rate is the
-- quotient of two equal small integers, which an `f64` holds exactly, so the quotient is taken last.
abbrev pub epoch_duration_in_slots : ℕ
epoch_duration_in_slots = epoch_duration_in_blocks * millisecs_per_block / slot_duration

abbrev pub primary_probability : ℕ × ℕ
primary_probability = (1, 4)
