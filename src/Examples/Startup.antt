-- ===== src/Examples/Startup.antt =====
-- The start of an authority whose every request succeeds, and the clock of a node that seals.
use testchain.Base.{◌≡◌, get_elem?, arith}
use testchain.Node.MockTime.{timestamps, timestamps_lem}
use testchain.Base.{ℕ, true, false, Option, none, some, [], ◌∷◌}
use testchain.Node.Config.{Configuration, default_eth, manual, in_memory, parity_db}
use testchain.Node.Calls.{Request}
use testchain.Node.Full.{new_full}
use testchain.Node.Milestones.{Starts}
use testchain.Node.Consensus.{plan, new_full-Starts}

abbrev pub authority : Configuration
authority = record {
  telemetry_endpoints = some ("wss://telemetry" ∷ []);
  is_authority = true;
  keystore = in_memory;
  offchain_worker_enabled = true;
  force_authoring = false;
  disable_grandpa = false;
  rpc_id_provider = none;
  database = parity_db "db";
}

abbrev pub all_succeed : Request → Option ℕ
all_succeed q = none

new_full-Starts_example :
    Starts (plan authority (some manual)) (new_full all_succeed authority default_eth (some manual))
new_full-Starts_example = new_full-Starts all_succeed authority default_eth (some manual)

timestamps_lem_example : get_elem? (timestamps 3 0) 2 ≡ some 18000
timestamps_lem_example = timestamps_lem 3 2 (omega arith) (omega arith)
