-- ===== src/Node/Full.antt =====
-- `new_full` of node/src/service.rs, with `build_full`.
use testchain.Base.{Bool, true, false, not, ◌&&◌, Option, none, some, is_some}
use testchain.Node.Config.{EthConfiguration, Configuration, Sealing}
use testchain.Node.Calls.{
  slot_timestamp_fee, slot_timestamp_proof, RpcDeps, Request, block_hash, some_hash, build_network,
  spawn_tasks, start_babe, run_grandpa_voter, plain, essential_blocking, offchain_workers_runner,
  babe_proposer, grandpa_voter, add_grandpa_protocol, spawn, start_network,
}
use testchain.Node.Startup.{Run, ◌>>=◌, ◌>>◌, return, attempt, expect, perform}
use testchain.Node.Partial.{
  new_partial, build_babe_grandpa_import_queue, grandpa_justification_period,
}
use testchain.Node.Tasks.{new_frontier_partial, spawn_frontier_tasks, run_manual_seal_authorship}

-- `config.rpc.id_provider = Some(Box::new(fc_rpc::EthereumSubIdProvider))`
abbrev pub with_eth_ids : Configuration → Configuration
with_eth_ids config = record config { rpc_id_provider = some "EthereumSubIdProvider" }

-- `eth_rpc_params`, and the `command_sink` of `FullDeps`.
abbrev pub rpc_deps : Configuration → EthConfiguration → Option Sealing → RpcDeps
rpc_deps config eth_config sealing = record {
  is_authority = config.is_authority;
  enable_dev_signer = eth_config.enable_dev_signer;
  max_past_logs = eth_config.max_past_logs;
  filter_pool = (new_frontier_partial eth_config).filter_pool;
  fee_history_cache_limit = (new_frontier_partial eth_config).fee_history_cache_limit;
  execute_gas_limit_multiplier = eth_config.execute_gas_limit_multiplier;
  eth_log_block_cache = eth_config.eth_log_block_cache;
  eth_statuses_cache = eth_config.eth_statuses_cache;
  pending_inherents = slot_timestamp_fee eth_config.target_gas_price;
  command_sink = is_some sealing;
}

module _ {E : Type 0} (fails : Request → Option E) where
  -- The warp sync provider, and the GRANDPA protocol that is added with it.
  abbrev pub warp_sync_config : Option Sealing → Run E Bool
  warp_sync_config (some sealing) = return false
  warp_sync_config none = perform add_grandpa_protocol >> return true

  abbrev pub spawn_offchain : Bool → Configuration → Run E (Unit {0})
  spawn_offchain true config = perform (spawn plain (offchain_workers_runner config.is_authority))
  spawn_offchain false config = return tt

  -- From the partial components to the Frontier tasks: what every node does.
  unfoldable pub start_common : Configuration → EthConfiguration → Option Sealing → Run E (Unit {0})
  start_common config eth_config sealing =
      let frontier = new_frontier_partial eth_config in
      new_partial fails config eth_config (build_babe_grandpa_import_queue fails) >>= λ backend.
      attempt fails (block_hash 0) >>= λ _. expect fails some_hash >>= λ _.
      warp_sync_config sealing >>= λ warp. attempt fails (build_network warp) >>= λ _.
      spawn_offchain config.offchain_worker_enabled config
      >> attempt fails (spawn_tasks (with_eth_ids config) (rpc_deps config eth_config sealing))
      >> spawn_frontier_tasks backend frontier.filter_pool frontier.fee_history_cache_limit

  abbrev pub start_babe_authorship : Configuration → Run E (Unit {0})
  start_babe_authorship config =
      attempt fails (start_babe slot_timestamp_proof config.force_authoring)
      >> perform (spawn essential_blocking babe_proposer)

  -- `if enable_grandpa`
  abbrev pub start_grandpa : Bool → Configuration → Run E (Unit {0})
  start_grandpa false config = return tt
  start_grandpa true config =
      attempt fails (run_grandpa_voter grandpa_justification_period config.is_authority)
      >> perform (spawn essential_blocking grandpa_voter)

  -- `if role.is_authority()`, with the early return of a sealing node, and what follows it.
  unfoldable pub start_consensus :
      Bool → Option Sealing → Configuration → EthConfiguration → Run E (Unit {0})
  start_consensus true (some sealing) config eth_config =
      run_manual_seal_authorship eth_config sealing >> perform start_network
  start_consensus true none config eth_config =
      start_babe_authorship config
      >> start_grandpa (not config.disable_grandpa && true) config
      >> perform start_network
  start_consensus false sealing config eth_config =
      start_grandpa (not config.disable_grandpa && not (is_some sealing)) config
      >> perform start_network

  -- `new_full`
  unfoldable pub new_full : Configuration → EthConfiguration → Option Sealing → Run E (Unit {0})
  new_full config eth_config sealing =
      start_common config eth_config sealing
      >> start_consensus config.is_authority sealing config eth_config

  -- `build_full`, which names the types of the runtime and the network.
  abbrev pub build_full : Configuration → EthConfiguration → Option Sealing → Run E (Unit {0})
  build_full config eth_config sealing = new_full config eth_config sealing
