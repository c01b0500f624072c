-- ===== src/Node/Endpoints.antt =====
-- The RPC (node/src/rpc) of a full node as node/src/service.rs starts it.
use testchain.Base.{
  Bool, true, false, if◌then◌else◌, Option, none, some, List, [], ◌∷◌, ◌++◌, ◌≡◌, refl, ap, ◌∙◌,
}
use testchain.Base.Result.{Result}
use testchain.Node.Config.{EthConfiguration, Configuration, Sealing}
use testchain.Node.Calls.{slot_timestamp_fee, Request, spawn_tasks, Call, asked}
use testchain.Node.Every.{Every, Every-implies}
use testchain.Node.Full.{rpc_deps, new_full}
use testchain.Node.Made.{Made, new_full-Made}
use testchain.Node.Rpc.{
  Extension, system, transaction_payment, babe, grandpa, manual_seal, eth, eth_filter, eth_pub_sub,
  net, web3, tx_pool, create_full,
}
use testchain.Node.Served.{served, merge_all, create_full-merge_all}

abbrev sealing_endpoints : Option Sealing → List Extension
sealing_endpoints none = []
sealing_endpoints (some sealing) = manual_seal ∷ []

-- The extensions by the node's options: manual sealing for a node that seals, the Ethereum API with
-- the node's role, a signer where there is to be one, the configured limits, and the target gas price
-- in pending blocks, and always the filters.
abbrev pub endpoints : Configuration → EthConfiguration → Option Sealing → Bool → List Extension
endpoints config eth_config sealing txpool =
    (system ∷ transaction_payment ∷ babe ∷ grandpa ∷ sealing_endpoints sealing)
    ++ (eth (record {
      signers = if eth_config.enable_dev_signer then 1 else 0;
      is_authority = config.is_authority;
      fee_history_cache_limit = eth_config.fee_history_limit;
      execute_gas_limit_multiplier = eth_config.execute_gas_limit_multiplier;
      pending_inherents = slot_timestamp_fee eth_config.target_gas_price;
      has_consensus_data_provider = true;
    })
        ∷ eth_filter 500 eth_config.max_past_logs
        ∷ eth_pub_sub
        ∷ net true
        ∷ web3
        ∷ (if txpool then tx_pool ∷ [] else []))

served-rpc_deps :
    (config : Configuration) (eth_config : EthConfiguration) (sealing : Option Sealing)
    (txpool : Bool)
    → served txpool (rpc_deps config eth_config sealing)
      ≡ endpoints config eth_config sealing txpool
served-rpc_deps config eth_config none true = refl
served-rpc_deps config eth_config none false = refl
served-rpc_deps config eth_config (some sealing) true = refl
served-rpc_deps config eth_config (some sealing) false = refl

module _ {M F : Type 0} (merge : M → Extension → Result F M) where
  -- From what the RPC tasks are given, `create_full` merges the extensions of the options, in their
  -- order and up to the first that is refused, with and without the transaction pool's; and the
  -- identifiers of subscriptions are Ethereum's.
  abbrev pub IsServing : Configuration → EthConfiguration → Option Sealing → Call → Type 0
  IsServing config eth_config sealing (asked (spawn_tasks config' deps)) =
      ((txpool : Bool) (new : M)
        → create_full merge txpool new deps
          ≡ merge_all merge new (endpoints config eth_config sealing txpool))
      × (config'.rpc_id_provider ≡ some "EthereumSubIdProvider")
  IsServing config eth_config sealing c = Unit

  IsServing-Made :
      (config : Configuration) (eth_config : EthConfiguration) (sealing : Option Sealing) (c : Call)
      → Made config eth_config sealing c
      → IsServing config eth_config sealing c
  IsServing-Made config eth_config sealing (asked (spawn_tasks config' deps)) h = (
    λ txpool new.
        create_full-merge_all merge txpool new deps
        ∙ ap (λ d. merge_all merge new (served txpool d)) h.1
        ∙ ap (merge_all merge new) (served-rpc_deps config eth_config sealing txpool),
    ap (λ (c : Configuration). c.rpc_id_provider) h.0,
  )
  IsServing-Made config eth_config sealing c h = tt

module _ {E : Type 0} (fails : Request → Option E) {M F : Type 0}
    (merge : M → Extension → Result F M) where
  -- However far the start of a full node comes, from what it gives the RPC `create_full` merges
  -- exactly the extensions that the node's options call for, in their order and with the options'
  -- limits, up to the first that is refused: manual sealing for a node that seals, the filters always,
  -- the transaction pool where it is built in. Subscriptions get Ethereum's identifiers.
  pub new_full-IsServing :
      (config : Configuration) (eth_config : EthConfiguration) (sealing : Option Sealing)
      → Every E
          (IsServing merge config eth_config sealing)
          (new_full fails config eth_config sealing)
  new_full-IsServing config eth_config sealing =
      Every-implies E (Made config eth_config sealing) (IsServing merge config eth_config sealing)
        (IsServing-Made merge config eth_config sealing) (new_full fails config eth_config sealing)
        (new_full-Made fails config eth_config sealing)
