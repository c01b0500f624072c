-- ===== src/Node/Config.antt =====
-- The options of the node: node/src/cli.rs and node/src/eth.rs, and of `sc_service`'s configuration
-- the fields that node/src/service.rs reads or writes.
use testchain.Base.{ℕ, Bool, false, Option, List, String}

-- `enum Sealing`
pub data Sealing : Type 0 where
  manual instant : Sealing

-- `enum BackendType`
pub data BackendType : Type 0 where
  key_value sql : BackendType

-- `struct EthConfiguration`
pub record EthConfiguration : Type 0 where
  pub max_past_logs : ℕ
  pub fee_history_limit : ℕ
  pub enable_dev_signer : Bool
  pub target_gas_price : ℕ
  pub execute_gas_limit_multiplier : ℕ
  pub eth_log_block_cache : ℕ
  pub eth_statuses_cache : ℕ
  pub frontier_backend_type : BackendType
  pub frontier_sql_backend_pool_size : ℕ
  pub frontier_sql_backend_num_ops_timeout : ℕ
  pub frontier_sql_backend_thread_count : ℕ
  pub frontier_sql_backend_cache_size : ℕ

-- The options when none is given on the command line.
abbrev pub default_eth : EthConfiguration
default_eth = record {
  max_past_logs = 10000;
  fee_history_limit = 2048;
  enable_dev_signer = false;
  target_gas_price = 1;
  execute_gas_limit_multiplier = 10;
  eth_log_block_cache = 50;
  eth_statuses_cache = 50;
  frontier_backend_type = key_value;
  frontier_sql_backend_pool_size = 100;
  frontier_sql_backend_num_ops_timeout = 10000000;
  frontier_sql_backend_thread_count = 4;
  frontier_sql_backend_cache_size = 209715200;
}

pub data KeystoreConfig : Type 0 where
  path : String → KeystoreConfig
  in_memory : KeystoreConfig

-- `DatabaseSource`, of which the source names two variants.
pub data DatabaseSource : Type 0 where
  -- With the path and the size of the cache.
  rocks_db : String → ℕ → DatabaseSource
  parity_db : String → DatabaseSource
  other_source : DatabaseSource

-- The fields of `Configuration` that the node reads or writes.
pub record Configuration : Type 0 where
  pub telemetry_endpoints : Option (List String)
  pub is_authority : Bool
  pub keystore : KeystoreConfig
  pub offchain_worker_enabled : Bool
  pub force_authoring : Bool
  pub disable_grandpa : Bool
  pub rpc_id_provider : Option String
  pub database : DatabaseSource
