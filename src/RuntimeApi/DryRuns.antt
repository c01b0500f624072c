-- ===== src/RuntimeApi/DryRuns.antt =====
-- What a dry run of a contract through the runtime API (runtime/src/apis.rs) may spend.
use testchain.Base.{ℕ, ◌≡◌, refl, Option, none, some, List}
use testchain.Base.Words.{u64_max}
use testchain.Weight.{WeightOps}
use testchain.Configs.Limits.{LimitOps, runtime_block_weights}
use testchain.Configs.Budgets.{IsLimits}
use testchain.RuntimeApi.Contracts.{
  ContractTypes, ContractsPallet, gas_or_max, contract_call, contract_instantiate,
}

module _ (W : WeightOps) (L : LimitOps W) (T : ContractTypes) (P : ContractsPallet W T) where
  open T use {AccountId, Code, State}

  gas_or_max-none :
      IsLimits W L
      → gas_or_max W L T P none ≡ gas_or_max W L T P (some (W.from_parts 2_000_000_000_000 u64_max))
  unfolding gas_or_max runtime_block_weights
  gas_or_max-none I = rw (I.max_block_lem _ _, I.per_second_lem) refl

  -- A dry run that is given no gas limit is the same run as one that is given all of a block, which
  -- is two seconds of time and any proof; so it is for a call and for an instantiation.
  dry_run_lem :
      IsLimits W L
      → (origin dest : AccountId) (value : ℕ) (deposit_limit : Option ℕ) (code : Code)
        (input salt : List ℕ) (s : State)
      → let block = W.from_parts 2_000_000_000_000 u64_max in
        (contract_call W L T P origin dest value none deposit_limit input s
          ≡ contract_call W L T P origin dest value (some block) deposit_limit input s)
        × (contract_instantiate W L T P origin value none deposit_limit code input salt s
            ≡ contract_instantiate W L T P origin value
                (some block)
                deposit_limit
                code
                input
                salt
                s)
  unfolding contract_call contract_instantiate
  dry_run_lem I origin dest value deposit_limit code input salt s = (
    rw (contract_call, gas_or_max-none I) refl,
    rw (contract_instantiate, gas_or_max-none I) refl,
  )
