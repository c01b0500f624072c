-- ===== src/Lib.antt =====
-- A verification library for 2testchain, a solochain on Substrate with Frontier: a runtime
-- (runtime/src) made of pallets, one of them its own (pallets/template/src), and a node (node/src)
-- that builds the genesis state, starts the services around the runtime and serves the RPC.
--
-- The node reads a chain specification (load_spec, chain_spec.rs), builds the client, the import
-- queue and the Frontier store (new_partial, service.rs), and then the network, the RPC and the
-- tasks of consensus (new_full). The runtime composes its pallets by index (runtime/src/lib.rs),
-- configures them (configs/mod.rs) and answers the runtime APIs (apis.rs), among them the
-- simulations of Ethereum calls that the RPC asks for.
--
-- Base holds what the modules share: names of the libraries, Boolean tests, Option and Result with
-- their binds, words of a width, and lists measured by native numbers. Weight is the saturating
-- arithmetic of weights, a parameter with its laws.
--
-- The files and the code:
--   Constants         runtime/src/configs/constants.rs: money, time, deposit
--   Template          pallets/template/src/lib.rs, weights.rs and benchmarking.rs: Storage is the value
--                     Something and the events; do_something and cause_error return a result and a storage
--   Precompiles       runtime/src/configs/precompiles.rs: used_addresses, execute, is_precompile
--   VoterBags         runtime/src/configs/voter_bags.rs: the thresholds
--   Pallets           runtime/src/lib.rs: the pallets and their indices, the order of their hooks
--                     (Hooks), and the start of a block (Authoring)
--   Configs           runtime/src/configs/mod.rs: create_transaction (Transactions, Eras), the author
--                     of a block (Author), origins (Origins, Privileges, Governance, Minorities),
--                     conversions (Conversions), limits of a block (Limits, Budgets), gas (Gas),
--                     deposits (Bonds), bounds of members and authorities (Bounds), durations
--                     (Terms), sizes, prices and priorities of the other pallets (Elections), shares
--                     and identifiers (Parts); every `impl Config for Runtime` as a table of
--                     settings (Settings and its modules), by pallet (Wiring); what the settings mean for origins (Checks, Strength),
--                     for money that is taken away (Imbalances, Accounts) and for a block's
--                     author in the EVM (Coinbase)
--   RuntimeApi        runtime/src/apis.rs: the hooks of self-contained calls (Calls, SelfContained),
--                     call and create (Ethereum, Estimates), conversions of transactions (Blocks),
--                     pending blocks (Pending), equivocation reports (Equivocations), blocks and the
--                     version (Core), BABE (Babe, Epochs), contracts (Contracts, DryRuns),
--                     fees and their configuration (Fees, Quotes), what the Ethereum API reads
--                     (EvmViews), staking, pools, keys and nonces (Staking), the genesis builder and
--                     try-runtime (Maintenance), the metadata and the benchmarks (Inspect)
--   Genesis           node/src/chain_spec.rs: keys (Keys), stakers (Stakers), endowment (Endow), EVM
--                     accounts (Evm), the JSON value as a record (State), the specifications (Specs);
--                     and load_spec of node/src/command.rs (Load); the other modules prove what holds
--                     of its bonds, validators, accounts, council, nominations, panics and the runtime's
--                     bounds (Fits)
--   Node              node/src/service.rs, eth.rs, cli.rs, command.rs and rpc: options (Config), what
--                     is asked of the crates below (Calls), runs (Startup), new_partial (Partial),
--                     tasks (Tasks), new_full (Full), the clock of sealing (MockTime), subcommands
--                     (Command, Platform, Benchmarks), the RPC (Rpc), the digest of a pending block
--                     (Digest), and node/src/benchmarking.rs (Extrinsics);
--                     the other modules prove what a run goes through (Milestones, Consensus,
--                     Liveness, Entry), what its calls are (Every, Offline, Made, Inherents), where
--                     it stops (Progress), what is purged (Purge) and served (Served, Endpoints)
--   Examples          concrete parameters, and the theorems at concrete inputs
--
-- A setting is the right-hand side of an associated type: a pallet of the runtime, a number, a name of
-- another type, or a generic type with its arguments. Checks and Imbalances read the settings by the
-- documented meaning of the combinators (EitherOfDiverse, EnsureRoot, EnsureSigned, EnsureMember,
-- EnsureProportion..., EnsureWithSuccess; OnUnbalanced of () and of the treasury, FungibleAdapter).
--
-- A start or a subcommand is a run: the list of the calls to the crates below, in order, with a
-- value or the failure that stopped it. A call that can fail is a request and is answered by a
-- parameter; one that cannot is an action. That the path of an SQL database is UTF-8, and the
-- wait of run_node_until_exit for a signal or the failure of an essential task, are requests too.
-- A panic is a failure of a run; in the other parts it is none. Loops over lists are structural.
-- The search for the next power of two in create_transaction has 32 steps of fuel, one for each
-- power that fits a u32; past those the source's checked_next_power_of_two gives None as well.
-- Numbers are natural numbers; sums and products of u32, u64, u128 and usize (32 bits in the Wasm
-- runtime) are taken modulo the word or saturate, as the source does.
--
-- Code of other crates is a parameter: the crypto and its keys, the random number generator, the
-- EVM and its runner, pallet_ethereum's hooks, the precompiled contracts, the signing of
-- payloads, the checks of origins, Executive, the pallets behind the runtime APIs, the arithmetic
-- of Perbill, RpcModule::merge, the file system. What a theorem needs of them is a hypothesis by
-- name, with an instance among the examples.
--
-- The subcommand benchmark and node/src/benchmarking.rs stand behind the feature runtime-benchmarks;
-- they are modelled as they are written, with the eight signed extensions that the file names, although
-- SignedExtra of the runtime has nine.
--
-- Not modelled: type aliases and trait bounds, the points of the reward curve, the code that macros
-- make of the lists of pallets, and the values that the node hands from one crate to another without
-- looking at them.
pub mod Base
pub mod Constants
pub mod Weight
pub mod Template
pub mod Precompiles
pub mod VoterBags
pub mod Genesis
pub mod Pallets
pub mod Configs
pub mod RuntimeApi
pub mod Node
pub mod Examples
