-- ===== src/Node/Offline.antt =====
-- What the subcommands of node/src/command.rs ask of the crates under the node.
use testchain.Base.{Bool, true, false, ◌≡◌, refl, Option, none, some}
use testchain.Node.Config.{
  EthConfiguration, Configuration, BackendType, key_value, sql, DatabaseSource, rocks_db, parity_db,
  other_source, in_memory, Sealing,
}
use testchain.Node.Calls.{
  Command, key, build_spec, check_block, export_blocks, export_state, import_blocks, revert,
  frontier_db, BenchmarkCommand, pallet_benchmark, block_benchmark, storage_benchmark,
  overhead_benchmark, extrinsic_benchmark, machine_benchmark, Request, new_full_parts,
  build_network, wait_for_exit, spawn_tasks, start_babe, run_grandpa_voter, spawn, plain, telemetry,
  start_network, add_grandpa_protocol, Call, asked, did,
}
use testchain.Node.Every.{
  Every, bind-Every, then-Every, return-Every, perform-Every, attempt-Every, expect-Every,
  ask-Every, stop-Every,
}
use testchain.Node.Partial.{
  start_worker, spawn_worker, open_backend, new_partial, build_babe_grandpa_import_queue,
  new_chain_ops,
}
use testchain.Node.Platform.{Platform}
use testchain.Node.Benchmarks.{provided, run_benchmark_command}
use testchain.Node.Command.{
  Subcommand, command, purge_chain, benchmark, benchmark_disabled, run, run_frontier_db, tolerate,
  removed, run_purge_chain,
}

-- What a call may be: the client has a keystore in memory, there is no network and no consensus, and
-- the one task is that of the telemetry.
abbrev pub IsOffline : Call → Type 0
IsOffline (asked (new_full_parts keystore)) = keystore ≡ in_memory
IsOffline (asked (build_network warp)) = ⊥
IsOffline (asked (spawn_tasks config deps)) = ⊥
IsOffline (asked (start_babe inherents force)) = ⊥
IsOffline (asked wait_for_exit) = ⊥
IsOffline (asked (run_grandpa_voter period keystore)) = ⊥
IsOffline (asked q) = Unit
IsOffline (did add_grandpa_protocol) = ⊥
IsOffline (did start_network) = ⊥
IsOffline (did (spawn handle task)) = task ≡ telemetry

module _ {E : Type 0} (fails : Request → Option E) where
  ruleset steps = (
    bind-Every, then-Every, return-Every, perform-Every, attempt-Every, expect-Every, ask-Every,
    stop-Every,
  )

  worker-IsOffline : (b : Bool) → Every E IsOffline (start_worker fails b)
  worker-IsOffline true = attempt-Every E IsOffline fails _ tt
  worker-IsOffline false = return-Every E IsOffline tt

  spawn-IsOffline : (b : Bool) → Every E IsOffline (spawn_worker fails b)
  spawn-IsOffline true = perform-Every E IsOffline (spawn plain telemetry) refl
  spawn-IsOffline false = return-Every E IsOffline tt

  backend-IsOffline :
      (t : BackendType) (eth_config : EthConfiguration)
      → Every E IsOffline (open_backend fails t eth_config)
  backend-IsOffline key_value eth_config = search (steps, tt)
  backend-IsOffline sql eth_config = search (steps, tt)

  queue-IsOffline :
      (eth_config : EthConfiguration)
      → Every E IsOffline (build_babe_grandpa_import_queue fails eth_config)
  unfolding build_babe_grandpa_import_queue
  queue-IsOffline eth_config = search (steps, tt)

  chain_ops-IsOffline :
      (config : Configuration) (eth_config : EthConfiguration)
      → Every E IsOffline (new_chain_ops fails config eth_config)
  unfolding new_chain_ops new_partial
  chain_ops-IsOffline config eth_config =
      search
        (steps, tt, refl, worker-IsOffline, spawn-IsOffline, backend-IsOffline, queue-IsOffline)
        depth 12

module _ {E : Type 0} (fails : Request → Option E) (platform : Platform E) where
  ruleset parts = (
    bind-Every, then-Every, return-Every, attempt-Every, ask-Every, stop-Every, chain_ops-IsOffline,
  )

  frontier_db-IsOffline :
      (backend : BackendType) → Every E IsOffline (run_frontier_db fails platform backend)
  frontier_db-IsOffline key_value = search (parts, tt)
  frontier_db-IsOffline sql = search parts

  command-IsOffline :
      (c : Command) (config : Configuration) (eth_config : EthConfiguration)
      (sealing : Option Sealing)
      → Every E IsOffline (run fails platform (some (command c)) config eth_config sealing)
  unfolding run
  command-IsOffline key config eth_config sealing = search (parts, tt)
  command-IsOffline build_spec config eth_config sealing = search (parts, tt)
  command-IsOffline check_block config eth_config sealing = search (parts, tt)
  command-IsOffline export_blocks config eth_config sealing = search (parts, tt)
  command-IsOffline export_state config eth_config sealing = search (parts, tt)
  command-IsOffline import_blocks config eth_config sealing = search (parts, tt)
  command-IsOffline revert config eth_config sealing = search (parts, tt)
  command-IsOffline frontier_db config eth_config sealing =
      search (parts, tt, frontier_db-IsOffline)

  tolerate-IsOffline : (b : Bool) (e : E) → Every E IsOffline (tolerate fails platform b e)
  tolerate-IsOffline true e = search parts
  tolerate-IsOffline false e = search parts

  removed-IsOffline : (o : Option E) → Every E IsOffline (removed fails platform o)
  removed-IsOffline none = search parts
  removed-IsOffline (some e) = tolerate-IsOffline (platform.is_not_found e) e

  purge_chain-IsOffline :
      (backend : BackendType) (database : DatabaseSource)
      → Every E IsOffline (run_purge_chain fails platform backend database)
  unfolding run_purge_chain
  purge_chain-IsOffline key_value (rocks_db path size) = search (parts, tt)
  purge_chain-IsOffline key_value (parity_db path) = search (parts, tt)
  purge_chain-IsOffline key_value other_source = search (parts, tt)
  purge_chain-IsOffline sql database = search (parts, removed-IsOffline)

  provided-IsOffline : (o : Option E) → Every E IsOffline (provided fails platform o)
  provided-IsOffline none = search parts
  provided-IsOffline (some e) = search parts

  benchmark-IsOffline :
      (c : BenchmarkCommand) (config : Configuration) (eth_config : EthConfiguration)
      → Every E IsOffline (run_benchmark_command fails platform c config eth_config)
  unfolding run_benchmark_command
  benchmark-IsOffline pallet_benchmark config eth_config = search (parts, tt)
  benchmark-IsOffline block_benchmark config eth_config = search (parts, tt)
  benchmark-IsOffline storage_benchmark config eth_config = search (parts, tt)
  benchmark-IsOffline overhead_benchmark config eth_config = search (parts, tt, provided-IsOffline)
  benchmark-IsOffline extrinsic_benchmark config eth_config = search (parts, tt, provided-IsOffline)
  benchmark-IsOffline machine_benchmark config eth_config = search (parts, tt)

  -- No subcommand starts the node: whatever the options, and however far it comes, a subcommand
  -- builds a client with a keystore in memory at most, builds no network, joins no consensus, and
  -- spawns no task but that of the telemetry.
  pub subcommand-IsOffline :
      (s : Subcommand) (config : Configuration) (eth_config : EthConfiguration)
      (sealing : Option Sealing)
      → Every E IsOffline (run fails platform (some s) config eth_config sealing)
  unfolding run
  subcommand-IsOffline (command c) config eth_config sealing =
      command-IsOffline c config eth_config sealing
  subcommand-IsOffline purge_chain config eth_config sealing =
      search (parts, tt, purge_chain-IsOffline)
  subcommand-IsOffline (benchmark c) config eth_config sealing =
      search (parts, tt, benchmark-IsOffline)
  subcommand-IsOffline benchmark_disabled config eth_config sealing = search parts
