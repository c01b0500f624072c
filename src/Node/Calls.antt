-- ===== src/Node/Calls.antt =====
-- What node/src/service.rs and node/src/command.rs ask of the crates under them. A `Request` can fail
-- and is followed by `?`, `expect` or `unwrap_or_else(panic!)`; an `Action` cannot fail.
use testchain.Base.{ℕ, Bool, Option, List, String}
use testchain.Node.Config.{Sealing, BackendType, Configuration, KeystoreConfig, DatabaseSource}

-- The subcommands whose `run` the crates under the node implement.
pub data Command : Type 0 where
  key build_spec check_block export_blocks export_state import_blocks revert frontier_db : Command

-- `BenchmarkCmd`
pub data BenchmarkCommand : Type 0 where
  pallet_benchmark block_benchmark storage_benchmark : BenchmarkCommand
  overhead_benchmark extrinsic_benchmark machine_benchmark : BenchmarkCommand

-- The builders of extrinsics that a benchmark is given: that of transfers with the seed of the
-- destination's key, and the value.
pub data Measured : Type 0 where
  measured_remark : Measured
  measured_transfer : String → ℕ → Measured

-- The tuples of inherent data providers, with the target gas price of the dynamic fee.
pub data Inherents : Type 0 where
  slot_timestamp_fee : ℕ → Inherents
  slot_timestamp_proof : Inherents
  mock_timestamp_fee : ℕ → Inherents

-- What the Ethereum RPC is given of the options: `EthDeps`, and `FullDeps::command_sink`.
pub record RpcDeps : Type 0 where
  pub is_authority : Bool
  pub enable_dev_signer : Bool
  pub max_past_logs : ℕ
  pub filter_pool : Bool
  pub fee_history_cache_limit : ℕ
  pub execute_gas_limit_multiplier : ℕ
  pub eth_log_block_cache : ℕ
  pub eth_statuses_cache : ℕ
  pub pending_inherents : Inherents
  pub command_sink : Bool

-- The SQL options, with `create_if_missing`.
pub record SqliteConfig : Type 0 where
  pub create_if_missing : Bool
  pub thread_count : ℕ
  pub cache_size : ℕ
  pub pool_size : ℕ
  pub num_ops_timeout : Option ℕ

pub data Request : Type 0 where
  -- `TelemetryWorker::new(buffer)`
  telemetry_worker : ℕ → Request
  new_full_parts : KeystoreConfig → Request
  -- `sc_consensus_grandpa::block_import`, with the justification period.
  grandpa_block_import : ℕ → Request
  open_kv : Request
  create_sql_dir : Request
  -- `to_str` of the path of the SQL database, which is `None` where the path is not UTF-8.
  sql_path_str : Request
  open_sql : SqliteConfig → Request
  babe_configuration : Request
  babe_block_import : Request
  import_queue : Inherents → Request
  block_hash : ℕ → Request
  -- That the `Option` of `block_hash` holds a hash.
  some_hash : Request
  -- `build_network`, with whether a warp sync provider is given.
  build_network : Bool → Request
  spawn_tasks : Configuration → RpcDeps → Request
  -- `start_babe`, with the providers and `force_authoring`.
  start_babe : Inherents → Bool → Request
  -- `run_grandpa_voter`, with the period and whether a keystore is given.
  run_grandpa_voter : ℕ → Bool → Request
  create_runner : Request
  -- The wait of `run_node_until_exit`, once the node is built: it ends well on a signal, and fails
  -- with the error of an essential task.
  wait_for_exit : Request
  -- `cmd.run(…)` of a subcommand.
  run_command : Command → Request
  -- `cmd.run(…)` of a benchmark, with its builders of extrinsics.
  run_benchmark : BenchmarkCommand → List Measured → Request
  -- `provide_inherent_data` of a timestamp.
  provide_timestamp : ℕ → Request
  -- `cmd.run(…)` of the subcommand `purge-chain`, on a database.
  purge : DatabaseSource → Request
  -- `std::fs::remove_dir_all` of the directory of the SQL database.
  remove_sql_dir : Request

pub data Handle : Type 0 where
  plain essential essential_blocking : Handle

pub data Task : Type 0 where
  telemetry : Task
  -- With `is_validator`.
  offchain_workers_runner : Bool → Task
  frontier_mapping_sync_worker : BackendType → Task
  -- With `FILTER_RETAIN_THRESHOLD`.
  frontier_filter_pool : ℕ → Task
  -- With `fee_history_cache_limit`.
  frontier_fee_history : ℕ → Task
  manual_seal : Sealing → Inherents → Task
  babe_proposer : Task
  grandpa_voter : Task

pub data Action : Type 0 where
  -- `net_config.add_notification_protocol(grandpa_protocol_config)`
  add_grandpa_protocol : Action
  spawn : Handle → Task → Action
  -- `network_starter.start_network()`
  start_network : Action

pub data Call : Type 0 where
  asked : Request → Call
  did : Action → Call
