-- ===== src/Examples/Commands.antt =====
-- The subcommands of a node, and an RPC module whose extensions have one method each.
use testchain.Base.{
  List, [], ◌∷◌, ◌++◌, ℕ, Bool, true, false, ◌&&◌, ◌||◌, ◌==◌, Option, none, some, ◌≡◌, ◌≢◌, ◌↔◌,
  refl, sym, ap, ◌∙◌, ℕ_discrete, arith,
}
use testchain.Base.Result.{Result, ok, err}
use testchain.Node.Config.{default_eth, parity_db, sql, manual}
use testchain.Node.Calls.{
  Call, asked, create_runner, wait_for_exit, Request, remove_sql_dir, RpcDeps, slot_timestamp_fee,
  check_block,
}
use testchain.Node.Startup.{service_error}
use testchain.Node.Milestones.{milestones, network_started}
use testchain.Node.Consensus.{plan}
use testchain.Node.Entry.{run-started}
use testchain.Node.Every.{Every}
use testchain.Node.Platform.{Platform}
use testchain.Node.Command.{command, run, run_purge_chain}
use testchain.Node.Offline.{IsOffline, subcommand-IsOffline}
use testchain.Node.Purge.{Purges, targets, run_purge_chain-Purges}
use testchain.Node.Made.{Made, new_full-Made}
use testchain.Node.Endpoints.{IsServing, new_full-IsServing}
use testchain.Node.Full.{new_full}
use testchain.Node.Rpc.{
  Extension, system, transaction_payment, babe, grandpa, manual_seal, eth, eth_filter, eth_pub_sub,
  net, web3, tx_pool, create_full,
}
use testchain.Node.Served.{IsRegistry, Apart, served, create_full_iff}
use testchain.Examples.Startup.{authority, all_succeed}

-- Errors are numbers; 2 says that a directory is not there.
abbrev platform : Platform ℕ
platform = record {
  message = λ text. 1;
  is_not_found = λ e. e == 2;
  debug_error = λ e. "error";
  debug_database = λ database. "database";
  debug_sql_path = "sql";
  frontier_database_dir = λ name. name;
}

-- The directory of the SQL database is not there.
abbrev no_directory : Request → Option ℕ
no_directory remove_sql_dir = some 2
no_directory q = none

run_purge_chain-Purges_example :
    Purges no_directory platform
      (parity_db "db")
      (targets no_directory platform sql (parity_db "db"))
      (run_purge_chain no_directory platform sql (parity_db "db"))
run_purge_chain-Purges_example = run_purge_chain-Purges no_directory platform sql (parity_db "db")

subcommand-IsOffline_example :
    Every ℕ IsOffline
      (run all_succeed platform (some (command check_block)) authority default_eth none)
subcommand-IsOffline_example =
    subcommand-IsOffline all_succeed platform (command check_block) authority default_eth none

-- Every request succeeds but the wait: an essential task fails with error 4.
abbrev task_fails : Request → Option ℕ
task_fails wait_for_exit = some 4
task_fails q = none

task_fails-others : (q : Request) → q ≢ wait_for_exit → task_fails q ≡ none
task_fails-others wait_for_exit h = absurd (h refl)
task_fails-others q h = refl

run-started_example :
    (calls : List Call) × (run task_fails platform none authority default_eth (some manual)
      ≡ ((asked create_runner ∷ calls) ++ (asked wait_for_exit ∷ []), err (service_error 4)))
    × (new_full task_fails authority default_eth (some manual) ≡ (calls, ok tt))
    × (milestones calls ≡ plan authority (some manual) ++ (network_started ∷ []))
run-started_example =
    run-started task_fails task_fails-others platform authority default_eth (some manual)

new_full-Made_example :
    Every ℕ
      (Made authority default_eth (some manual))
      (new_full all_succeed authority default_eth (some manual))
new_full-Made_example = new_full-Made all_succeed authority default_eth (some manual)

-- The name of the one method of an extension.
abbrev name : Extension → ℕ
name system = 0
name transaction_payment = 1
name babe = 2
name grandpa = 3
name manual_seal = 4
name (eth params) = 5
name (eth_filter stored past) = 6
name eth_pub_sub = 7
name (net hex) = 8
name web3 = 9
name tx_pool = 10

abbrev method : Extension → ℕ → Bool
method x n = name x == n

abbrev Methods : Type 0
Methods = ℕ → Bool

abbrev added : Bool → Methods → Extension → Result ℕ Methods
added true io x = err 0
added false io x = ok (λ n. io n || method x n)

abbrev merge : Methods → Extension → Result ℕ Methods
merge io x = added (io (name x)) io x

abbrev offers : Methods → ℕ → Bool
offers io n = io n

abbrev no_methods : Methods
no_methods n = false

one_method : (m n : ℕ) (io : Methods) → io m ≡ false → Dec (m ≡ n) → (io n && (m == n)) ≡ false
one_method m n io h (yes e) = rw (sym (ap io e) ∙ h) refl
one_method m n io h (no e) = ground (arith, e)

merge_iff :
    (b : Bool) (io : Methods) (x : Extension)
    → io (name x) ≡ b
    → ((io' : Methods) × (added b io x ≡ ok io')) ↔ ((n : ℕ) → (offers io n && method x n) ≡ false)
merge_iff true io x h = (λ r. cc (r.1), λ no. ground (arith, h, no (name x)))
merge_iff false io x h = (
  λ r n. one_method (name x) n io h (ℕ_discrete (name x) n),
  λ no. (λ n. io n || method x n, refl),
)

abbrev value : Result ℕ Methods → Methods
value (ok io) = io
value (err e) = no_methods

offers-merge :
    (b : Bool) (io io' : Methods) (x : Extension) (n : ℕ)
    → added b io x ≡ ok io'
    → offers io' n ≡ (offers io n || method x n)
offers-merge true io io' x n h = cc
offers-merge false io io' x n h = ap (λ r. value r n) (sym h)

registry : IsRegistry merge offers method
registry = record {
  merge_iff = λ io x. merge_iff (io (name x)) io x refl;
  offers-merge = λ io io' x n h. offers-merge (io (name x)) io io' x n h;
}

abbrev deps : RpcDeps
deps = record {
  is_authority = true;
  enable_dev_signer = true;
  max_past_logs = 10000;
  filter_pool = true;
  fee_history_cache_limit = 2048;
  execute_gas_limit_multiplier = 10;
  eth_log_block_cache = 50;
  eth_statuses_cache = 50;
  pending_inherents = slot_timestamp_fee 1;
  command_sink = false;
}

create_full_iff_example :
    ((r : Methods) × (create_full merge true no_methods deps ≡ ok r))
    ↔ Apart merge offers method no_methods (served true deps)
create_full_iff_example = create_full_iff merge offers method registry true no_methods deps

new_full-IsServing_example :
    Every ℕ
      (IsServing merge authority default_eth (some manual))
      (new_full all_succeed authority default_eth (some manual))
new_full-IsServing_example =
    new_full-IsServing all_succeed merge authority default_eth (some manual)
