-- ===== src/Node/Partial.antt =====
-- node/src/service.rs: `new_partial`, `build_babe_grandpa_import_queue` and `new_chain_ops`.
use testchain.Base.{
  ℕ, Bool, true, false, if◌then◌else◌, ltb, Option, none, some, List, [], ◌∷◌, String,
}
use testchain.Node.Config.{BackendType, key_value, sql, EthConfiguration, Configuration, in_memory}
use testchain.Node.Calls.{
  slot_timestamp_fee, SqliteConfig, Request, telemetry_worker, new_full_parts, grandpa_block_import,
  open_kv, create_sql_dir, sql_path_str, open_sql, babe_configuration, babe_block_import,
  import_queue, plain, telemetry, spawn,
}
use testchain.Node.Startup.{Run, ◌>>=◌, ◌>>◌, return, attempt, expect, perform}

-- `GRANDPA_JUSTIFICATION_PERIOD`
abbrev pub grandpa_justification_period : ℕ
grandpa_justification_period = 512

-- `.filter(|x| !x.is_empty())`
abbrev pub has_endpoints : Option (List String) → Bool
has_endpoints none = false
has_endpoints (some []) = false
has_endpoints (some (x ∷ xs)) = true

-- `NonZeroU32::new`
abbrev non_zero : ℕ → Option ℕ
non_zero n = if ltb 0 n then some n else none

abbrev pub sqlite_config : EthConfiguration → SqliteConfig
sqlite_config eth_config = record {
  create_if_missing = true;
  thread_count = eth_config.frontier_sql_backend_thread_count;
  cache_size = eth_config.frontier_sql_backend_cache_size;
  pool_size = eth_config.frontier_sql_backend_pool_size;
  num_ops_timeout = non_zero eth_config.frontier_sql_backend_num_ops_timeout;
}

module _ {E : Type 0} (fails : Request → Option E) where
  abbrev pub start_worker : Bool → Run E (Unit {0})
  start_worker true = attempt fails (telemetry_worker 16)
  start_worker false = return tt

  abbrev pub spawn_worker : Bool → Run E (Unit {0})
  spawn_worker true = perform (spawn plain telemetry)
  spawn_worker false = return tt

  abbrev pub open_backend : BackendType → EthConfiguration → Run E BackendType
  open_backend key_value eth_config = attempt fails open_kv >> return key_value
  open_backend sql eth_config =
      expect fails create_sql_dir
      >> expect fails sql_path_str
      >> expect fails (open_sql (sqlite_config eth_config))
      >> return sql

  -- `build_babe_grandpa_import_queue`
  unfoldable pub build_babe_grandpa_import_queue : EthConfiguration → Run E (Unit {0})
  build_babe_grandpa_import_queue eth_config =
      attempt fails babe_configuration
      >> attempt fails babe_block_import
      >> attempt fails (import_queue (slot_timestamp_fee eth_config.target_gas_price))

  -- `new_partial`, with the kind of the Frontier backend it opened.
  unfoldable pub new_partial :
      Configuration → EthConfiguration → (EthConfiguration → Run E (Unit {0})) → Run E BackendType
  new_partial config eth_config build_import_queue =
      start_worker (has_endpoints config.telemetry_endpoints)
      >> attempt fails (new_full_parts config.keystore)
      >> spawn_worker (has_endpoints config.telemetry_endpoints)
      >> attempt fails (grandpa_block_import grandpa_justification_period)
      >> open_backend eth_config.frontier_backend_type eth_config
      >>= λ backend. build_import_queue eth_config >> return backend

  -- `new_chain_ops`
  unfoldable pub new_chain_ops : Configuration → EthConfiguration → Run E BackendType
  new_chain_ops config eth_config =
      new_partial (record config { keystore = in_memory }) eth_config
        build_babe_grandpa_import_queue
