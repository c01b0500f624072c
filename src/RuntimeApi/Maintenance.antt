-- ===== src/RuntimeApi/Maintenance.antt =====
-- runtime/src/apis.rs, lines 797 to 831: the genesis builder, and the API behind `try-runtime`.
use testchain.Base.{Option, none, some, List, [], Bool}
use testchain.Base.Result.{Result, ok, err}
use testchain.Weight.{WeightOps}
use testchain.Configs.Limits.{LimitOps, runtime_block_weights}

-- The helpers of the genesis builder, and the checked upgrade and execution of `Executive`.
pub record Maintenance (W : WeightOps) : Type 1 where
  pub State : Type 0
  pub Config : Type 0
  pub PresetId : Type 0
  pub Checks : Type 0
  pub Block : Type 0
  pub Select : Type 0
  pub Error : Type 0
  pub build_state : Config → State → Result Error (Unit {0}) × State
  pub get_preset : Option PresetId → (PresetId → Option Config) → Option Config
  pub try_runtime_upgrade : Checks → State → Result Error W.Weight × State
  pub try_execute_block : Block → Bool → Bool → Select → State → Result Error W.Weight × State

-- `unwrap` and `expect`, whose panic is `none`.
abbrev unwrap : {E A : Type 0} → Result E A → Option A
unwrap (ok a) = some a
unwrap (err e) = none

module _ (W : WeightOps) (L : LimitOps W) (K : Maintenance W) where
  open K use {State, Config, PresetId, Checks, Block, Select, Error}

  -- `GenesisBuilder::build_state`
  unfoldable pub api_build_state : Config → State → Result Error (Unit {0}) × State
  api_build_state config s = K.build_state config s

  -- `GenesisBuilder::get_preset`, which knows no preset.
  unfoldable pub api_get_preset : Option PresetId → Option Config
  api_get_preset id = K.get_preset id (λ _. none)

  -- `GenesisBuilder::preset_names`
  unfoldable pub preset_names : List PresetId
  preset_names = []

  -- `TryRuntime::on_runtime_upgrade`, with the weight of a block.
  unfoldable pub on_runtime_upgrade : Checks → State → Option (W.Weight × W.Weight)
  on_runtime_upgrade checks s =
      let (result, _) = K.try_runtime_upgrade checks s in
      elim (unwrap result) [
        | none ↦ none
        | some weight ↦ some (weight, L.max_block (runtime_block_weights W L))
      ]

  -- `TryRuntime::execute_block`
  unfoldable pub try_runtime_execute_block : Block → Bool → Bool → Select → State → Option W.Weight
  try_runtime_execute_block block state_root_check signature_check select s =
      let (result, _) = K.try_execute_block block state_root_check signature_check select s in
      unwrap result
