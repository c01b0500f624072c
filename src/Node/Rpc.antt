-- ===== src/Node/Rpc.antt =====
-- node/src/rpc: the RPC extensions of the node. The module that holds the methods, and what each
-- extension offers, belong to other crates.
use testchain.Base.{Bool, true, false, if◌then◌else◌, ℕ}
use testchain.Base.Result.{Result, ok, ◌>>=◌}
use testchain.Node.Calls.{RpcDeps, Inherents}

-- What `Eth::new` is given of `EthDeps`, with the number of its signers.
pub record EthParams : Type 0 where
  pub signers : ℕ
  pub is_authority : Bool
  pub fee_history_cache_limit : ℕ
  pub execute_gas_limit_multiplier : ℕ
  pub pending_inherents : Inherents
  pub has_consensus_data_provider : Bool

-- The extensions that are merged.
pub data Extension : Type 0 where
  system transaction_payment babe grandpa manual_seal : Extension
  eth : EthParams → Extension
  -- With the number of filters that are stored, and the number of logs in a query.
  eth_filter : ℕ → ℕ → Extension
  eth_pub_sub : Extension
  -- With whether a peer count is formatted as hexadecimal.
  net : Bool → Extension
  web3 tx_pool : Extension

abbrev dev_signers : Bool → ℕ
dev_signers enabled = if enabled then 1 else 0

abbrev pub eth_params : RpcDeps → EthParams
eth_params deps = record {
  signers = dev_signers deps.enable_dev_signer;
  is_authority = deps.is_authority;
  fee_history_cache_limit = deps.fee_history_cache_limit;
  execute_gas_limit_multiplier = deps.execute_gas_limit_multiplier;
  pending_inherents = deps.pending_inherents;
  has_consensus_data_provider = true;
}

module _ {M E : Type 0} (merge : M → Extension → Result E M) where
  abbrev pub merge_if : Bool → Extension → M → Result E M
  merge_if true extension io = merge io extension
  merge_if false extension io = ok io

  -- `create_eth`; whether there is the feature `txpool` is an argument.
  unfoldable pub create_eth : Bool → M → RpcDeps → Result E M
  create_eth txpool io deps = do
    io₁ ← merge io (eth (eth_params deps))
    io₂ ← merge_if deps.filter_pool (eth_filter 500 deps.max_past_logs) io₁
    io₃ ← merge io₂ eth_pub_sub
    io₄ ← merge io₃ (net true)
    io₅ ← merge io₄ web3
    merge_if txpool tx_pool io₅

  -- `create_full`, on a new module.
  unfoldable pub create_full : Bool → M → RpcDeps → Result E M
  create_full txpool new deps = do
    io₁ ← merge new system
    io₂ ← merge io₁ transaction_payment
    io₃ ← merge io₂ babe
    io₄ ← merge io₃ grandpa
    io₅ ← merge_if deps.command_sink manual_seal io₄
    create_eth txpool io₅ deps
