-- ===== src/Node/Benchmarks.antt =====
-- The subcommand `benchmark` of node/src/command.rs, lines 155 to 202, with `inherent_benchmark_data` of
-- node/src/benchmarking.rs.
use Prim.Native.String.{◌++◌ as ◌<>◌}
use testchain.Base.{Option, none, some, [], ◌∷◌}
use testchain.Configs.Bonds.{existential_deposit}
use testchain.Node.Config.{EthConfiguration, Configuration}
use testchain.Node.Calls.{
  BenchmarkCommand, pallet_benchmark, block_benchmark, storage_benchmark, overhead_benchmark,
  extrinsic_benchmark, machine_benchmark, measured_remark, measured_transfer, Request,
  run_benchmark, provide_timestamp,
}
use testchain.Node.Startup.{Run, ◌>>=◌, ◌>>◌, return, attempt, ask}
use testchain.Node.Platform.{Platform, refuse}
use testchain.Node.Partial.{new_chain_ops}

module _ {E : Type 0} (fails : Request → Option E) (platform : Platform E) where
  -- `map_err` and `?` on what `provide_inherent_data` returns.
  abbrev pub provided : Option E → Run E (Unit {0})
  provided none = return tt
  provided (some e) = refuse platform ("creating inherent data: " <> platform.debug_error e)

  -- `inherent_benchmark_data`, at the time 0.
  abbrev pub inherent_benchmark_data : Run E (Unit {0})
  inherent_benchmark_data = ask fails (provide_timestamp 0) >>= provided

  -- The match on `BenchmarkCmd`, behind `create_runner`.
  unfoldable pub run_benchmark_command :
      BenchmarkCommand → Configuration → EthConfiguration → Run E (Unit {0})
  run_benchmark_command pallet_benchmark config eth_config =
      attempt fails (run_benchmark pallet_benchmark [])
  run_benchmark_command block_benchmark config eth_config =
      new_chain_ops fails config eth_config >>= λ _.
      attempt fails (run_benchmark block_benchmark [])
  run_benchmark_command storage_benchmark config eth_config =
      new_chain_ops fails config eth_config >>= λ _.
      attempt fails (run_benchmark storage_benchmark [])
  run_benchmark_command overhead_benchmark config eth_config =
      new_chain_ops fails config eth_config >>= λ _.
      inherent_benchmark_data
      >> attempt fails (run_benchmark overhead_benchmark (measured_remark ∷ []))
  run_benchmark_command extrinsic_benchmark config eth_config =
      new_chain_ops fails config eth_config >>= λ _.
      inherent_benchmark_data
      >> attempt fails (
          run_benchmark extrinsic_benchmark
            (measured_remark ∷ measured_transfer "Alice" existential_deposit ∷ []))
  run_benchmark_command machine_benchmark config eth_config =
      attempt fails (run_benchmark machine_benchmark [])
