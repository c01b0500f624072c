-- ===== src/Node/Made.antt =====
-- What a full node (node/src/service.rs) asks of the crates under it, with which arguments.
use testchain.Base.{
  ℕ, zero, suc, ◌≡◌, ◌↔◌, ◌∙◌, refl, Bool, true, false, not, ◌&&◌, if◌then◌else◌, ltb, Option, none,
  some, is_some, List, [], ◌∷◌, String, arith,
}
use testchain.Node.Config.{EthConfiguration, Configuration, BackendType, key_value, sql, Sealing}
use testchain.Node.Calls.{
  slot_timestamp_fee, slot_timestamp_proof, mock_timestamp_fee, Request, telemetry_worker,
  new_full_parts, grandpa_block_import, open_kv, create_sql_dir, sql_path_str, open_sql,
  babe_configuration, babe_block_import, import_queue, block_hash, some_hash, build_network,
  spawn_tasks, start_babe, run_grandpa_voter, create_runner, wait_for_exit, run_command,
  run_benchmark, provide_timestamp, purge, remove_sql_dir, Handle, plain, essential,
  essential_blocking, Task, telemetry, offchain_workers_runner, frontier_mapping_sync_worker,
  frontier_filter_pool, frontier_fee_history, manual_seal, babe_proposer, grandpa_voter, spawn,
  add_grandpa_protocol, start_network, Call, asked, did,
}
use testchain.Node.Startup.{Run, ◌>>=◌, perform}
use testchain.Node.Every.{
  Every, bind-Every, then-Every, return-Every, perform-Every, attempt-Every, expect-Every, Yields,
  return-Yields, bind-Yields, then-Yields, value-Every,
}
use testchain.Node.Partial.{
  has_endpoints, sqlite_config, start_worker, spawn_worker, open_backend, new_partial,
  build_babe_grandpa_import_queue,
}
use testchain.Node.Tasks.{spawn_frontier_tasks, run_manual_seal_authorship}
use testchain.Node.Full.{
  with_eth_ids, rpc_deps, warp_sync_config, spawn_offchain, start_common, start_grandpa,
  start_consensus, new_full,
}

-- The telemetry has an endpoint.
abbrev HasTelemetry : Configuration → Type 0
HasTelemetry config =
    (url : String) × (urls : List String) × (config.telemetry_endpoints ≡ some (url ∷ urls))

-- The limit on the operations of a query: none where the option is 0.
abbrev pub operations : ℕ → Option ℕ
operations zero = none
operations (suc n) = some (suc n)

-- The thread that the task of the mapping runs on.
abbrev pub mapping_handle : BackendType → Handle
mapping_handle key_value = essential
mapping_handle sql = essential_blocking

-- A task concerns what the options call for, and runs where it should.
abbrev pub MadeTask : Configuration → EthConfiguration → Option Sealing → Handle → Task → Type 0
MadeTask config eth_config sealing handle telemetry = (handle ≡ plain) × HasTelemetry config
MadeTask config eth_config sealing handle (offchain_workers_runner validator) =
    (handle ≡ plain) × (config.offchain_worker_enabled ≡ true) × (validator ≡ config.is_authority)
MadeTask config eth_config sealing handle (frontier_mapping_sync_worker backend) =
    (backend ≡ eth_config.frontier_backend_type) × (handle ≡ mapping_handle backend)
MadeTask config eth_config sealing handle (frontier_filter_pool n) =
    (handle ≡ essential) × (n ≡ 100)
MadeTask config eth_config sealing handle (frontier_fee_history n) =
    (handle ≡ essential) × (n ≡ eth_config.fee_history_limit)
MadeTask config eth_config sealing handle (manual_seal s inherents) =
    (handle ≡ essential_blocking)
    × (config.is_authority ≡ true)
    × (sealing ≡ some s)
    × (inherents ≡ mock_timestamp_fee eth_config.target_gas_price)
MadeTask config eth_config sealing handle babe_proposer =
    (handle ≡ essential_blocking) × (config.is_authority ≡ true) × (sealing ≡ none)
MadeTask config eth_config sealing handle grandpa_voter =
    (handle ≡ essential_blocking) × (config.disable_grandpa ≡ false) × (sealing ≡ none)

-- A request is made only where the options call for it, and with what they say. Nothing is asked that
-- belongs to a subcommand or comes after the start.
abbrev pub MadeRequest : Configuration → EthConfiguration → Option Sealing → Request → Type 0
MadeRequest config eth_config sealing (telemetry_worker n) = (n ≡ 16) × HasTelemetry config
MadeRequest config eth_config sealing (new_full_parts keystore) = keystore ≡ config.keystore
MadeRequest config eth_config sealing (grandpa_block_import n) = n ≡ 512
MadeRequest config eth_config sealing open_kv = eth_config.frontier_backend_type ≡ key_value
MadeRequest config eth_config sealing create_sql_dir = eth_config.frontier_backend_type ≡ sql
MadeRequest config eth_config sealing sql_path_str = eth_config.frontier_backend_type ≡ sql
MadeRequest config eth_config sealing (open_sql sqlite) =
    (eth_config.frontier_backend_type ≡ sql)
    × (sqlite.create_if_missing ≡ true)
    × (sqlite.thread_count ≡ eth_config.frontier_sql_backend_thread_count)
    × (sqlite.cache_size ≡ eth_config.frontier_sql_backend_cache_size)
    × (sqlite.pool_size ≡ eth_config.frontier_sql_backend_pool_size)
    × (sqlite.num_ops_timeout ≡ operations eth_config.frontier_sql_backend_num_ops_timeout)
MadeRequest config eth_config sealing (import_queue inherents) =
    inherents ≡ slot_timestamp_fee eth_config.target_gas_price
MadeRequest config eth_config sealing (block_hash n) = n ≡ 0
MadeRequest config eth_config sealing (build_network warp) = (warp ≡ true) ↔ (sealing ≡ none)
MadeRequest config eth_config sealing (spawn_tasks config' deps) =
    (config' ≡ record config { rpc_id_provider = some "EthereumSubIdProvider" })
    × (deps ≡ record {
      is_authority = config.is_authority;
      enable_dev_signer = eth_config.enable_dev_signer;
      max_past_logs = eth_config.max_past_logs;
      filter_pool = true;
      fee_history_cache_limit = eth_config.fee_history_limit;
      execute_gas_limit_multiplier = eth_config.execute_gas_limit_multiplier;
      eth_log_block_cache = eth_config.eth_log_block_cache;
      eth_statuses_cache = eth_config.eth_statuses_cache;
      pending_inherents = slot_timestamp_fee eth_config.target_gas_price;
      command_sink = is_some sealing;
    })
MadeRequest config eth_config sealing (start_babe inherents force) =
    (inherents ≡ slot_timestamp_proof)
    × (force ≡ config.force_authoring)
    × (config.is_authority ≡ true)
    × (sealing ≡ none)
MadeRequest config eth_config sealing (run_grandpa_voter n keystore) =
    (n ≡ 512)
    × (keystore ≡ config.is_authority)
    × (config.disable_grandpa ≡ false)
    × (sealing ≡ none)
MadeRequest config eth_config sealing create_runner = ⊥
MadeRequest config eth_config sealing wait_for_exit = ⊥
MadeRequest config eth_config sealing (run_command c) = ⊥
MadeRequest config eth_config sealing (run_benchmark c builders) = ⊥
MadeRequest config eth_config sealing (provide_timestamp n) = ⊥
MadeRequest config eth_config sealing (purge database) = ⊥
MadeRequest config eth_config sealing remove_sql_dir = ⊥
MadeRequest config eth_config sealing babe_configuration = Unit
MadeRequest config eth_config sealing babe_block_import = Unit
MadeRequest config eth_config sealing some_hash = Unit

abbrev pub Made : Configuration → EthConfiguration → Option Sealing → Call → Type 0
Made config eth_config sealing (asked q) = MadeRequest config eth_config sealing q
Made config eth_config sealing (did add_grandpa_protocol) = sealing ≡ none
Made config eth_config sealing (did (spawn handle task)) =
    MadeTask config eth_config sealing handle task
Made config eth_config sealing (did start_network) = Unit

has_endpoints_sound :
    (config : Configuration) → has_endpoints config.telemetry_endpoints ≡ true → HasTelemetry config
has_endpoints_sound config h = urls config.telemetry_endpoints refl h
  where
    urls :
        (o : Option (List String))
        → config.telemetry_endpoints ≡ o
        → has_endpoints o ≡ true
        → HasTelemetry config
    urls none e k = cc
    urls (some []) e k = cc
    urls (some (url ∷ rest)) e k = (url, rest, e)

operations-sqlite_config :
    (eth_config : EthConfiguration)
    → (sqlite_config eth_config).num_ops_timeout
      ≡ operations eth_config.frontier_sql_backend_num_ops_timeout
operations-sqlite_config eth_config = by_number eth_config.frontier_sql_backend_num_ops_timeout
  where
    by_number : (n : ℕ) → (if ltb 0 n then some n else none) ≡ operations n
    by_number zero = refl
    by_number (suc n) = ground arith

module _ {E : Type 0} (fails : Request → Option E) (config : Configuration)
    (eth_config : EthConfiguration) (sealing : Option Sealing) where
  ruleset steps = (bind-Every, then-Every, return-Every, perform-Every, attempt-Every, expect-Every)

  abbrev AllMade : Call → Type 0
  AllMade = Made config eth_config sealing

  worker-Made :
      (b : Bool)
      → has_endpoints config.telemetry_endpoints ≡ b
      → Every E AllMade (start_worker fails b)
  worker-Made true e =
      attempt-Every E AllMade fails (telemetry_worker 16) (refl, has_endpoints_sound config e)
  worker-Made false e = search steps

  spawn-Made :
      (b : Bool)
      → has_endpoints config.telemetry_endpoints ≡ b
      → Every E AllMade (spawn_worker fails b)
  spawn-Made true e =
      perform-Every E AllMade (spawn plain telemetry) (refl, has_endpoints_sound config e)
  spawn-Made false e = search steps

  backend-Made :
      (t : BackendType)
      → eth_config.frontier_backend_type ≡ t
      → Every E AllMade (open_backend fails t eth_config)
  backend-Made key_value e = search (steps, e)
  backend-Made sql e =
      let opened : MadeRequest config eth_config sealing (open_sql (sqlite_config eth_config)) =
        (e, refl, refl, refl, refl, operations-sqlite_config eth_config) in
      search (steps, e, opened)

  backend-Yields : (t : BackendType) → Yields E (λ b. b ≡ t) (open_backend fails t eth_config)
  backend-Yields key_value = search (then-Yields, return-Yields)
  backend-Yields sql = search (then-Yields, return-Yields)

  queue-Made : Every E AllMade (build_babe_grandpa_import_queue fails eth_config)
  unfolding build_babe_grandpa_import_queue
  queue-Made = search (steps, tt)

  partial-Made :
      Every E AllMade (new_partial fails config eth_config (build_babe_grandpa_import_queue fails))
  unfolding new_partial
  partial-Made = search (steps, worker-Made, spawn-Made, backend-Made, queue-Made) depth 12

  partial-Yields :
      Yields E
        (λ b. b ≡ eth_config.frontier_backend_type)
        (new_partial fails config eth_config (build_babe_grandpa_import_queue fails))
  unfolding new_partial
  partial-Yields = search (
    bind-Yields E (λ (b : BackendType). b ≡ eth_config.frontier_backend_type),
    then-Yields,
    backend-Yields,
    return-Yields,
  )

  frontier-Made :
      (backend : BackendType)
      → backend ≡ eth_config.frontier_backend_type
      → Every E AllMade (spawn_frontier_tasks backend true eth_config.fee_history_limit)
  unfolding spawn_frontier_tasks
  frontier-Made key_value e = search (steps, e)
  frontier-Made sql e = search (steps, e)

  warp_iff : (o : Option Sealing) → sealing ≡ o → (not (is_some o) ≡ true) ↔ (sealing ≡ none)
  warp_iff none e = (λ _. e, λ _. refl)
  warp_iff (some s) e = (λ h. cc, λ h. cc)

  -- The network, after the warp sync provider.
  warp-Made :
      {B : Type 0} (o : Option Sealing) (f : Bool → Run E B)
      → sealing ≡ o
      → Every E AllMade (f (not (is_some o)))
      → Every E AllMade (warp_sync_config fails o >>= f)
  unfolding Every perform
  warp-Made none f e h = (e, h)
  warp-Made (some s) f e h = h

  offchain-Made :
      (b : Bool)
      → config.offchain_worker_enabled ≡ b
      → Every E AllMade (spawn_offchain fails b config)
  offchain-Made true e = search (steps, e)
  offchain-Made false e = search steps

  common-Made : Every E AllMade (start_common fails config eth_config sealing)
  unfolding start_common
  common-Made =
      value-Every E AllMade (λ b. b ≡ eth_config.frontier_backend_type) _ _ partial-Made
        partial-Yields
        (λ backend e.
          bind-Every E AllMade _ _ (attempt-Every E AllMade fails (block_hash 0) refl) (λ _.
            bind-Every E AllMade _ _ (expect-Every E AllMade fails some_hash tt) (λ _.
              warp-Made sealing _ refl (
                bind-Every E AllMade _ _
                  (attempt-Every E AllMade fails (build_network (not (is_some sealing)))
                    (warp_iff sealing refl))
                  (λ _.
                    then-Every E AllMade _ _
                      (then-Every E AllMade _ _ (offchain-Made config.offchain_worker_enabled refl)
                        (attempt-Every E AllMade fails
                          (spawn_tasks (with_eth_ids config) (rpc_deps config eth_config sealing))
                          (refl, refl)))
                      (frontier-Made backend e))))))

  grandpa-Made :
      (b : Bool)
      → (b ≡ true → (config.disable_grandpa ≡ false) × (sealing ≡ none))
      → Every E AllMade (start_grandpa fails b config)
  grandpa-Made true h = let (enabled, unsealed) = h refl in search (steps, enabled, unsealed)
  grandpa-Made false h = search steps

  grandpa_enabled :
      (disabled : Bool) (o : Option Sealing)
      → (not disabled && not (is_some o)) ≡ true
      → (disabled ≡ false) × (o ≡ none)
  grandpa_enabled true o h = cc
  grandpa_enabled false none h = (refl, refl)
  grandpa_enabled false (some s) h = cc

  consensus-Made :
      (authority : Bool) (o : Option Sealing)
      → config.is_authority ≡ authority
      → sealing ≡ o
      → Every E AllMade (start_consensus fails authority o config eth_config)
  unfolding start_consensus run_manual_seal_authorship
  consensus-Made true (some s) a e = search (steps, a, e)
  consensus-Made true none a e =
      let grandpa =
        grandpa-Made (not config.disable_grandpa && true)
          (λ h. ((grandpa_enabled config.disable_grandpa none h).0, e)) in
      search (steps, grandpa, a, e)
  consensus-Made false o a e =
      let grandpa = grandpa-Made (not config.disable_grandpa && not (is_some o)) (λ h.
        let (enabled, unsealed) = grandpa_enabled config.disable_grandpa o h in
        (enabled, e ∙ unsealed)) in
      search (steps, grandpa)

  -- However far the start of a full node comes, each request that it makes and each task that it
  -- spawns is called for by the options and has the arguments that they say: the telemetry only with
  -- an endpoint, the backend and its mapping of the configured kind, the SQL options, warp sync exactly
  -- without sealing, BABE's authorship only for an authority that does not seal and without the target
  -- gas price, the GRANDPA voter only where it is enabled and nothing is sealed, the RPC's parameters,
  -- the off-chain worker, the limits and the threads of the tasks. It asks nothing that belongs to a
  -- subcommand, nor waits for the exit.
  pub new_full-Made :
      Every E (Made config eth_config sealing) (new_full fails config eth_config sealing)
  unfolding new_full
  new_full-Made =
      then-Every E AllMade _ _ common-Made (consensus-Made config.is_authority sealing refl refl)
