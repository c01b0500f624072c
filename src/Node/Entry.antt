-- ===== src/Node/Entry.antt =====
-- The node without a subcommand: the last arm of `run` of node/src/command.rs, with the start of
-- node/src/service.rs.
use testchain.Base.{◌≡◌, ◌≢◌, refl, Option, none, List, [], ◌∷◌, ◌++◌}
use testchain.Base.Result.{ok}
use testchain.Node.Config.{EthConfiguration, Configuration, Sealing}
use testchain.Node.Calls.{Request, create_runner, wait_for_exit, Call, asked}
use testchain.Node.Startup.{service_error, answered, attempt}
use testchain.Node.Platform.{Platform}
use testchain.Node.Command.{run}
use testchain.Node.Full.{new_full}
use testchain.Node.Milestones.{milestones, network_started}
use testchain.Node.Consensus.{plan}
use testchain.Node.Liveness.{new_full-started}

module _ {E : Type 0} (fails : Request → Option E)
    (answers : (q : Request) → q ≢ wait_for_exit → fails q ≡ none) (platform : Platform E) where
  -- Where what is under the node answers every request but, perhaps, the wait for its exit (the text of
  -- the path of an SQL database among them), the program without a subcommand starts a node, whatever
  -- its options: it makes a runner, goes through the whole of the node's plan, the network with or
  -- without warp sync and the tasks of its consensus, starts the network last, and then waits. It ends
  -- as the wait ends: without an error on a signal, and otherwise with the error of the essential task.
  pub run-started :
      (config : Configuration) (eth_config : EthConfiguration) (sealing : Option Sealing)
      → (calls : List Call) × (run fails platform none config eth_config sealing ≡ (
        (asked create_runner ∷ calls) ++ (asked wait_for_exit ∷ []),
        answered (fails wait_for_exit) service_error,
      ))
        × (new_full fails config eth_config sealing ≡ (calls, ok tt))
        × (milestones calls ≡ plan config sealing ++ (network_started ∷ []))
  unfolding run attempt
  run-started config eth_config sealing =
      let (calls, ended, reached) = new_full-started fails answers config eth_config sealing in
      (calls, rw (answers create_runner (λ e. cc), ended) refl, ended, reached)
