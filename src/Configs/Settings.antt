-- ===== src/Configs/Settings.antt =====
-- The settings of the pallets: what each `impl Config for Runtime` of runtime/src/configs/mod.rs gives
-- for the types that a pallet leaves open, as data.
pub mod Chain
pub mod Virtual
pub mod Consensus
pub mod Validators
pub mod Councils
pub mod Democracy
use text.Mathlib.Text.{◌==◌ as str_eq}
use testchain.Base.{ℕ, Bool, Option, none, some, List, [], ◌∷◌, String, if◌then◌else◌}
use testchain.Pallets.{Pallet}

infixl 30 ◌$◌
-- The right-hand side of `type Key = …;`. Constants stand for themselves, so do the parameters that
-- are numbers; a type of another crate, or of the runtime, goes by its name.
pub data Setting : Type 0 where
  pallet : Pallet → Setting
  -- `Runtime`, and `Self` in an implementation for it
  runtime : Setting
  -- `()`
  unit : Setting
  number : ℕ → Setting
  flag : Bool → Setting
  named : String → Setting
  -- A pair of types.
  both : Setting → Setting → Setting
  -- A generic type with its next argument.
  ◌$◌ : Setting → Setting → Setting

abbrev pub Table : Type 0
Table = List (String × Setting)

abbrev pub lookup : String → Table → Option Setting
lookup key [] = none
lookup key ((k, s) ∷ settings) =
    let rest = lookup key settings in if str_eq k key then some s else rest
