-- ===== src/Node/Command.antt =====
-- node/src/command.rs: the subcommands of the node. What the command line gives, a configuration
-- among it, is an argument; `fails` is what the crates under the node answer.
use Prim.Native.String.{◌++◌ as ◌<>◌}
use testchain.Base.{ℕ, Bool, true, false, Option, none, some, String}
use testchain.Node.Config.{
  EthConfiguration, Configuration, Sealing, BackendType, key_value, sql, DatabaseSource, rocks_db,
  parity_db, other_source,
}
use testchain.Node.Calls.{
  Command, BenchmarkCommand, key, build_spec, check_block, export_blocks, export_state,
  import_blocks, revert, frontier_db, Request, create_runner, wait_for_exit, run_command, purge,
  remove_sql_dir,
}
use testchain.Node.Startup.{Run, ◌>>=◌, ◌>>◌, return, attempt, ask}
use testchain.Node.Platform.{Platform, refuse, panic}
use testchain.Node.Benchmarks.{run_benchmark_command}
use testchain.Node.Partial.{new_chain_ops}
use testchain.Node.Full.{build_full}

-- The text of both errors of `purge-chain`.
abbrev pub cannot_purge : String → String
cannot_purge what = "Cannot purge `" <> what <> "` database"

-- `enum Subcommand`: the commands of `Command`, and those that the source runs itself, with both forms
-- of `Benchmark`, of which the feature `runtime-benchmarks` selects one.
pub data Subcommand : Type 0 where
  command : Command → Subcommand
  purge_chain : Subcommand
  benchmark : BenchmarkCommand → Subcommand
  benchmark_disabled : Subcommand

-- What `SubstrateCli` asks of the node's command line.
pub record CliTexts : Type 0 where
  pub impl_name : String
  pub impl_version : String
  pub description : String
  pub author : String
  pub support_url : String
  pub copyright_start_year : ℕ

-- `impl SubstrateCli for Cli`, with the texts that the build sets.
abbrev cli_texts : String → String → String → CliTexts
cli_texts impl_version description authors = record {
  impl_name = "HaHaXiao Network";
  impl_version = impl_version;
  description = description;
  author = authors;
  support_url = "support.anonymous.an";
  copyright_start_year = 2024;
}

module _ {E : Type 0} (fails : Request → Option E) (platform : Platform E) where
  open platform use {
    is_not_found, debug_error, debug_database, debug_sql_path, frontier_database_dir,
  }

  -- `frontier_database_config`
  abbrev pub frontier_database_config : DatabaseSource → Option DatabaseSource
  frontier_database_config (rocks_db path size) = some (rocks_db (frontier_database_dir "db") 0)
  frontier_database_config (parity_db path) = some (parity_db (frontier_database_dir "paritydb"))
  frontier_database_config other_source = none

  abbrev purge_kv : DatabaseSource → Option DatabaseSource → Run E (Unit {0})
  purge_kv database none = refuse platform (cannot_purge (debug_database database))
  purge_kv database (some frontier_database) = attempt fails (purge frontier_database)

  -- The match on what `remove_dir_all` returns: a directory that was not there is no failure.
  abbrev pub tolerate : Bool → E → Run E (Unit {0})
  tolerate true e = return tt
  tolerate false e = refuse platform (cannot_purge debug_sql_path <> ": " <> debug_error e)

  abbrev pub removed : Option E → Run E (Unit {0})
  removed none = return tt
  removed (some e) = tolerate (is_not_found e) e

  abbrev purge_frontier : BackendType → DatabaseSource → Run E (Unit {0})
  purge_frontier key_value database = purge_kv database (frontier_database_config database)
  purge_frontier sql database = ask fails remove_sql_dir >>= removed

  -- The closure of `Subcommand::PurgeChain`.
  unfoldable pub run_purge_chain : BackendType → DatabaseSource → Run E (Unit {0})
  run_purge_chain backend database =
      purge_frontier backend database >> attempt fails (purge database)

  -- The closures that build the client and hand it to a command.
  abbrev chain_command : Command → Configuration → EthConfiguration → Run E (Unit {0})
  chain_command c config eth_config =
      new_chain_ops fails config eth_config >>= λ _. attempt fails (run_command c)

  -- The match on the Frontier backend of `Subcommand::FrontierDb`.
  abbrev pub run_frontier_db : BackendType → Run E (Unit {0})
  run_frontier_db key_value = attempt fails (run_command frontier_db)
  run_frontier_db sql = panic platform "Only fc_db::Backend::KeyValue supported"

  -- What follows `create_runner`.
  abbrev run_closure : Command → Configuration → EthConfiguration → Run E (Unit {0})
  run_closure key config eth_config = attempt fails (run_command key)
  run_closure build_spec config eth_config = attempt fails (run_command build_spec)
  run_closure frontier_db config eth_config =
      new_chain_ops fails config eth_config >>= λ backend. run_frontier_db backend
  run_closure check_block config eth_config = chain_command check_block config eth_config
  run_closure export_blocks config eth_config = chain_command export_blocks config eth_config
  run_closure export_state config eth_config = chain_command export_state config eth_config
  run_closure import_blocks config eth_config = chain_command import_blocks config eth_config
  run_closure revert config eth_config = chain_command revert config eth_config

  -- `Subcommand::Key` makes no runner.
  abbrev run_subcommand : Command → Configuration → EthConfiguration → Run E (Unit {0})
  run_subcommand key config eth_config = run_closure key config eth_config
  run_subcommand c config eth_config =
      attempt fails create_runner >> run_closure c config eth_config

  -- `run`, from the parsed command line and the configuration that a runner is made with.
  unfoldable pub run :
      Option Subcommand → Configuration → EthConfiguration → Option Sealing → Run E (Unit {0})
  run none config eth_config sealing =
      attempt fails create_runner
      >> build_full fails config eth_config sealing
      >> attempt fails wait_for_exit
  run (some (command c)) config eth_config sealing = run_subcommand c config eth_config
  run (some purge_chain) config eth_config sealing =
      attempt fails create_runner
      >> run_purge_chain eth_config.frontier_backend_type config.database
  run (some (benchmark c)) config eth_config sealing =
      attempt fails create_runner >> run_benchmark_command fails platform c config eth_config
  run (some benchmark_disabled) config eth_config sealing =
      refuse platform
        "Benchmarking wasn't enabled when building the node. You can enable it with `--features runtime-benchmarks`."
