-- ===== src/Node/Inherents.antt =====
-- The inherent data that a full node (node/src/service.rs) hands to the parts that make blocks.
use testchain.Base.{◌≡◌, ap, Option}
use testchain.Node.Config.{EthConfiguration, Configuration, Sealing}
use testchain.Node.Calls.{
  slot_timestamp_fee, slot_timestamp_proof, mock_timestamp_fee, RpcDeps, Request, import_queue,
  spawn_tasks, start_babe, manual_seal, spawn, Call, asked, did,
}
use testchain.Node.Every.{Every, Every-implies}
use testchain.Node.Full.{new_full}
use testchain.Node.Made.{Made, new_full-Made}

-- A block of the import queue, a pending block of the RPC and a sealed block get the configured
-- target gas price. A block that BABE authors gets a storage proof, and no gas price.
abbrev pub Carries : Configuration → EthConfiguration → Call → Type 0
Carries config eth_config (asked (import_queue inherents)) =
    inherents ≡ slot_timestamp_fee eth_config.target_gas_price
Carries config eth_config (asked (spawn_tasks config' deps)) =
    deps.pending_inherents ≡ slot_timestamp_fee eth_config.target_gas_price
Carries config eth_config (asked (start_babe inherents force)) =
    (inherents ≡ slot_timestamp_proof) × (force ≡ config.force_authoring)
Carries config eth_config (asked q) = Unit
Carries config eth_config (did (spawn handle (manual_seal sealing inherents))) =
    inherents ≡ mock_timestamp_fee eth_config.target_gas_price
Carries config eth_config (did a) = Unit

Carries-Made :
    (config : Configuration) (eth_config : EthConfiguration) (sealing : Option Sealing) (c : Call)
    → Made config eth_config sealing c
    → Carries config eth_config c
Carries-Made config eth_config sealing (asked (import_queue inherents)) h = h
Carries-Made config eth_config sealing (asked (spawn_tasks config' deps)) h =
    ap (λ (d : RpcDeps). d.pending_inherents) h.1
Carries-Made config eth_config sealing (asked (start_babe inherents force)) h = (h.0, h.1)
Carries-Made config eth_config sealing (asked q) h = tt
Carries-Made config eth_config sealing (did (spawn handle (manual_seal s inherents))) h = h.3
Carries-Made config eth_config sealing (did a) h = tt

module _ {E : Type 0} (fails : Request → Option E) (config : Configuration)
    (eth_config : EthConfiguration) where
  -- Of the parts of a full node that make blocks, the import queue, the pending blocks of the RPC and
  -- the sealing get the target gas price of the options. BABE's authorship never does: it gets the
  -- slot, the time and a storage proof, and the option `force_authoring`.
  new_full-Carries :
      (sealing : Option Sealing)
      → Every E (Carries config eth_config) (new_full fails config eth_config sealing)
  new_full-Carries sealing =
      Every-implies E (Made config eth_config sealing) (Carries config eth_config)
        (Carries-Made config eth_config sealing) (new_full fails config eth_config sealing)
        (new_full-Made fails config eth_config sealing)
