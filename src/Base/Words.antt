-- ===== src/Base/Words.antt =====
-- The unsigned machine integers of the source, as native numbers with their largest values.
use Prim.Native.Nat.{ℕ, ◌+◌, ◌≤◌}
use testchain.Base.Tests.{leb, if◌then◌else◌}
use mathlib.Core.Option.{Option, none, some}
use native.Mathlib.Omega.{arith}

abbrev pub u32_max : ℕ
u32_max = 4294967295

abbrev pub u64_max : ℕ
u64_max = 18446744073709551615

abbrev pub u128_max : ℕ
u128_max = 340282366920938463463374607431768211455

abbrev pub u256_max : ℕ
u256_max = 115792089237316195423570985008687907853269984665640564039457584007913129639935

-- `a.checked_add(b)` on an integer whose largest value is `top`.
abbrev pub checked_add : ℕ → ℕ → ℕ → Option ℕ
checked_add top a b = if leb (a + b) top then some (a + b) else none

-- `a.saturating_add(b)`
abbrev pub saturating_add : ℕ → ℕ → ℕ → ℕ
saturating_add top a b = if leb (a + b) top then a + b else top

pub saturating_add-le : (top a b : ℕ) → saturating_add top a b ≤ top
saturating_add-le top a b = ground arith
