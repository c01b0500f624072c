-- ===== src/Node/Consensus.antt =====
-- Which consensus a full node takes part in, and when its network starts.
use testchain.Base.{
  ℕ, Bool, true, false, not, ◌&&◌, Option, none, some, List, [], ◌∷◌, ◌≡◌, refl, sym, is_some, ◌∙◌,
  if◌then◌else◌,
}
use mathlib.Core.List.{append-nil}
use testchain.Node.Config.{EthConfiguration, Configuration, Sealing, BackendType, key_value, sql}
use testchain.Node.Calls.{
  Request, telemetry_worker, block_hash, some_hash, build_network, spawn_tasks, start_babe,
  run_grandpa_voter, plain, essential_blocking, telemetry, offchain_workers_runner, babe_proposer,
  grandpa_voter, Action, add_grandpa_protocol, spawn, start_network, asked, did,
}
use testchain.Node.Startup.{
  answered, Run, Failure, service_error, panicked, ◌>>=◌, ◌>>◌, return, attempt, expect, perform,
}
use testchain.Node.Partial.{
  start_worker, spawn_worker, open_backend, new_partial, build_babe_grandpa_import_queue,
}
use testchain.Node.Tasks.{spawn_frontier_tasks, run_manual_seal_authorship}
use testchain.Node.Full.{
  warp_sync_config, spawn_offchain, start_grandpa, start_common, start_consensus, new_full,
}
use testchain.Node.Milestones.{
  after-Reaches, Milestone, network_built, sealing_spawned, babe_spawned, grandpa_spawned,
  milestone, milestones, Reaches, Starts, bind-Reaches, bind-Starts,
}

-- The GRANDPA voter, unless it is disabled.
abbrev pub finality : Bool → List Milestone
finality disabled = if disabled then [] else (grandpa_spawned ∷ [])

-- A sealing authority seals and does nothing else; an authority without sealing authors with BABE;
-- every node without sealing votes.
abbrev pub consensus : Bool → Option Sealing → Bool → List Milestone
consensus true (some sealing) disabled = sealing_spawned sealing ∷ []
consensus true none disabled = babe_spawned ∷ finality disabled
consensus false (some sealing) disabled = []
consensus false none disabled = finality disabled

-- The network, with warp sync unless the node seals, then the consensus.
unfoldable pub plan : Configuration → Option Sealing → List Milestone
plan config sealing =
    network_built (not (is_some sealing))
    ∷ consensus config.is_authority sealing config.disable_grandpa

module _ {E : Type 0} (fails : Request → Option E) where
  request-Reaches :
      (fail : E → Failure E) (q : Request) (o : Option E)
      → Reaches (milestone (asked q)) (asked q ∷ [], answered o fail)
  unfolding Reaches milestones
  request-Reaches fail q none = append-nil (milestone (asked q))
  request-Reaches fail q (some e) = ([], append-nil _ ∙ append-nil (milestone (asked q)))

  attempt-Reaches : (q : Request) → Reaches (milestone (asked q)) (attempt fails q)
  unfolding attempt
  attempt-Reaches q = request-Reaches service_error q (fails q)

  expect-Reaches : (q : Request) → Reaches (milestone (asked q)) (expect fails q)
  unfolding expect
  expect-Reaches q = request-Reaches panicked q (fails q)

  perform-Reaches : (a : Action) → Reaches {E = E} (milestone (did a)) (perform a)
  unfolding perform Reaches milestones
  perform-Reaches a = append-nil (milestone (did a))

  return-Reaches : {A : Type 0} (a : A) → Reaches {E = E} [] (return a)
  unfolding Reaches milestones
  return-Reaches a = refl

  network_started_lem : Starts {E = E} [] (perform start_network)
  unfolding perform Starts milestones
  network_started_lem = refl

  -- A part that reaches no milestone.
  quiet :
      {A B : Type 0} (ns : List Milestone) (m : Run E A) (f : A → Run E B)
      → Reaches [] m
      → ((a : A) → Reaches ns (f a))
      → Reaches ns (m >>= f)
  quiet ns m f h k = bind-Reaches [] ns m f h k

  worker_quiet : (b : Bool) → Reaches [] (start_worker fails b)
  worker_quiet true = attempt-Reaches (telemetry_worker 16)
  worker_quiet false = return-Reaches tt

  spawn_quiet : (b : Bool) → Reaches {E = E} [] (spawn_worker fails b)
  spawn_quiet true = perform-Reaches (spawn plain telemetry)
  spawn_quiet false = return-Reaches tt

  backend_quiet :
      (t : BackendType) (eth_config : EthConfiguration)
      → Reaches [] (open_backend fails t eth_config)
  unfolding Reaches
  backend_quiet key_value eth_config = search (quiet, attempt-Reaches, return-Reaches)
  backend_quiet sql eth_config = search (quiet, expect-Reaches, return-Reaches)

  queue_quiet :
      (eth_config : EthConfiguration)
      → Reaches [] (build_babe_grandpa_import_queue fails eth_config)
  unfolding build_babe_grandpa_import_queue Reaches
  queue_quiet eth_config = search (quiet, attempt-Reaches)

  partial_quiet :
      (config : Configuration) (eth_config : EthConfiguration)
      → Reaches [] (new_partial fails config eth_config (build_babe_grandpa_import_queue fails))
  unfolding new_partial Reaches
  partial_quiet config eth_config =
      search
        (
          quiet, attempt-Reaches, worker_quiet, spawn_quiet, backend_quiet, queue_quiet,
          return-Reaches,
        )
        depth 12

  frontier_quiet :
      (backend : BackendType) (filter_pool : Bool) (limit : ℕ)
      → Reaches {E = E} [] (spawn_frontier_tasks backend filter_pool limit)
  unfolding spawn_frontier_tasks Reaches
  frontier_quiet key_value true limit = search (quiet, perform-Reaches)
  frontier_quiet key_value false limit = search (quiet, perform-Reaches, return-Reaches)
  frontier_quiet sql true limit = search (quiet, perform-Reaches)
  frontier_quiet sql false limit = search (quiet, perform-Reaches, return-Reaches)

  offchain_quiet :
      (b : Bool) (config : Configuration) → Reaches {E = E} [] (spawn_offchain fails b config)
  offchain_quiet true config =
      perform-Reaches (spawn plain (offchain_workers_runner config.is_authority))
  offchain_quiet false config = return-Reaches tt

  -- The chain that knows whether there is a warp sync provider.
  warp_sync_lem :
      {B : Type 0} (ns : List Milestone) (sealing : Option Sealing) (f : Bool → Run E B)
      → Reaches ns (f (not (is_some sealing)))
      → Reaches ns (warp_sync_config fails sealing >>= f)
  unfolding perform milestones
  warp_sync_lem ns (some s) f h = after-Reaches [] ns [] (f false) refl h
  warp_sync_lem ns none f h = after-Reaches [] ns (did add_grandpa_protocol ∷ []) (f true) refl h

  common-Reaches :
      (config : Configuration) (eth_config : EthConfiguration) (sealing : Option Sealing)
      → Reaches
          (network_built (not (is_some sealing)) ∷ [])
          (start_common fails config eth_config sealing)
  unfolding start_common
  common-Reaches config eth_config sealing =
      quiet _ _ _ (partial_quiet config eth_config) (λ backend.
        quiet _ _ _ (attempt-Reaches (block_hash 0)) (λ _.
          quiet _ _ _ (expect-Reaches some_hash) (λ _. warp_sync_lem _ sealing _ (
            bind-Reaches _ [] _ _ (attempt-Reaches (build_network (not (is_some sealing)))) (λ _.
              quiet _ _ _
                (quiet _ _ _ (offchain_quiet config.offchain_worker_enabled config)
                  (λ _. attempt-Reaches (spawn_tasks _ _)))
                (λ _. frontier_quiet backend true eth_config.fee_history_limit))))))

  grandpa-Reaches :
      (disabled : Bool) (config : Configuration)
      → Reaches (finality disabled) (start_grandpa fails (not disabled && true) config)
  grandpa-Reaches true config = return-Reaches tt
  grandpa-Reaches false config =
      quiet _ _ _ (attempt-Reaches (run_grandpa_voter _ _))
        (λ _. perform-Reaches (spawn essential_blocking grandpa_voter))

  no_grandpa : (b : Bool) → b && false ≡ false
  no_grandpa true = refl
  no_grandpa false = refl

  -- What is followed by the start of the network.
  ends_started :
      {A : Type 0} (ms : List Milestone) (m : Run E A)
      → Reaches ms m
      → Starts ms (m >> perform start_network)
  ends_started ms m h =
      rw (sym (append-nil ms)) (bind-Starts ms [] m _ h (λ _. network_started_lem))

  consensus-Starts :
      (authority : Bool) (sealing : Option Sealing) (config : Configuration)
      (eth_config : EthConfiguration)
      → Starts
          (consensus authority sealing config.disable_grandpa)
          (start_consensus fails authority sealing config eth_config)
  unfolding start_consensus run_manual_seal_authorship
  consensus-Starts true (some s) config eth_config = ends_started _ _ (perform-Reaches _)
  consensus-Starts true none config eth_config = ends_started _ _ (
      bind-Reaches (babe_spawned ∷ []) _ _ _
        (quiet _ _ _ (attempt-Reaches (start_babe _ _))
          (λ _. perform-Reaches (spawn essential_blocking babe_proposer)))
        (λ _. grandpa-Reaches config.disable_grandpa config))
  consensus-Starts false none config eth_config =
      ends_started _ _ (grandpa-Reaches config.disable_grandpa config)
  consensus-Starts false (some s) config eth_config =
      ends_started _
        (start_grandpa fails (not config.disable_grandpa && not (is_some (some s))) config)
        (rw (no_grandpa (not config.disable_grandpa)) (return-Reaches tt))

  -- A full node that starts has built its network, with warp sync exactly where it does not seal,
  -- has spawned the consensus tasks that its role and options call for and no others, and started
  -- the network last. One whose start fails has gone through a part of that and has not started
  -- the network.
  pub new_full-Starts :
      (config : Configuration) (eth_config : EthConfiguration) (sealing : Option Sealing)
      → Starts (plan config sealing) (new_full fails config eth_config sealing)
  unfolding new_full plan
  new_full-Starts config eth_config sealing =
      bind-Starts _ _ _ _ (common-Reaches config eth_config sealing)
        (λ _. consensus-Starts config.is_authority sealing config eth_config)
