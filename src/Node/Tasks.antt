-- ===== src/Node/Tasks.antt =====
-- `spawn_frontier_tasks` (node/src/eth.rs) and `run_manual_seal_authorship` (node/src/service.rs).
use testchain.Base.{ℕ, Bool, true, false}
use testchain.Node.Config.{BackendType, key_value, sql, EthConfiguration, Sealing}
use testchain.Node.Calls.{
  mock_timestamp_fee, essential, essential_blocking, frontier_mapping_sync_worker,
  frontier_filter_pool, frontier_fee_history, manual_seal, spawn,
}
use testchain.Node.Startup.{Run, ◌>>◌, perform, return}

-- `FrontierPartialComponents`: whether there is a filter pool, and the limit of the fee history.
pub record FrontierPartialComponents : Type 0 where
  pub filter_pool : Bool
  pub fee_history_cache_limit : ℕ

-- `new_frontier_partial`, which cannot fail.
abbrev pub new_frontier_partial : EthConfiguration → FrontierPartialComponents
new_frontier_partial config = record {
  filter_pool = true;
  fee_history_cache_limit = config.fee_history_limit;
}

module _ {E : Type 0} where
  abbrev spawn_mapping_sync : BackendType → Run E (Unit {0})
  spawn_mapping_sync key_value = perform (spawn essential (frontier_mapping_sync_worker key_value))
  spawn_mapping_sync sql = perform (spawn essential_blocking (frontier_mapping_sync_worker sql))

  -- `if let Some(filter_pool) = filter_pool`, with `FILTER_RETAIN_THRESHOLD`.
  abbrev spawn_filter_pool : Bool → Run E (Unit {0})
  spawn_filter_pool true = perform (spawn essential (frontier_filter_pool 100))
  spawn_filter_pool false = return tt

  -- `spawn_frontier_tasks`, from the kind of the backend, whether there is a filter pool, and the
  -- limit of the fee history.
  unfoldable pub spawn_frontier_tasks : BackendType → Bool → ℕ → Run E (Unit {0})
  spawn_frontier_tasks backend filter_pool cache_limit =
      spawn_mapping_sync backend
      >> spawn_filter_pool filter_pool
      >> perform (spawn essential (frontier_fee_history cache_limit))

  -- `run_manual_seal_authorship`
  unfoldable pub run_manual_seal_authorship : EthConfiguration → Sealing → Run E (Unit {0})
  run_manual_seal_authorship eth_config sealing = perform (
      spawn essential_blocking
        (manual_seal sealing (mock_timestamp_fee eth_config.target_gas_price)))
