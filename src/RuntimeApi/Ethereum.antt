-- ===== src/RuntimeApi/Ethereum.antt =====
-- runtime/src/apis.rs, lines 529 to 685: `call` and `create` of `EthereumRuntimeRPCApi`. The runtime
-- is compiled to Wasm, where a `usize` has 32 bits.
use testchain.Base.{
  ℕ, ◌+◌, ◌%◌, ◌^◌, Bool, true, false, Option, none, some, List, [], ltb, if◌then◌else◌, length,
  unwrap_or, is_some,
}
use testchain.Base.Words.{u64_max}
use testchain.Base.Result.{Result, map_err}
use testchain.Weight.{WeightOps}

-- What the two functions call: the EVM configuration with its flag `estimate`, the mapping of gas to
-- weight, the size of an encoded `Option` of an access list, and the runner, which changes the state.
-- A `U256` is a number.
pub record EvmPallet (W : WeightOps) : Type 1 where
  pub H160 : Type 0
  pub AccessItem : Type 0
  pub Config : Type 0
  pub State : Type 0
  pub RunnerError : Type 0
  pub DispatchError : Type 0
  pub CallInfo : Type 0
  pub CreateInfo : Type 0
  pub config : Config
  pub with_estimate : Config → Config
  pub gas_to_weight : ℕ → Bool → W.Weight
  pub encoded_size : Option (List AccessItem) → ℕ
  pub into_dispatch_error : RunnerError → DispatchError

module _ (W : WeightOps) (P : EvmPallet W) where
  open P use {H160, AccessItem, Config, State, RunnerError, DispatchError, CallInfo, CreateInfo}

  -- The arguments that both functions of the API take.
  pub record Request : Type 0 where
    pub source : H160
    pub input : List ℕ
    pub value : ℕ
    pub gas_limit : ℕ
    pub max_fee_per_gas : Option ℕ
    pub max_priority_fee_per_gas : Option ℕ
    pub nonce : Option ℕ
    pub estimate : Bool
    pub access_list : Option (List AccessItem)

  -- The arguments that the runner takes, after the address of a call.
  pub record RunnerArgs : Type 0 where
    pub source : H160
    pub input : List ℕ
    pub value : ℕ
    pub gas_limit : ℕ
    pub max_fee_per_gas : Option ℕ
    pub max_priority_fee_per_gas : Option ℕ
    pub nonce : Option ℕ
    pub access_list : List AccessItem
    pub is_transactional : Bool
    pub validate : Bool
    pub weight_limit : Option W.Weight
    pub proof_size_base_cost : Option ℕ
    pub config : Config

abbrev usize_mod : ℕ
usize_mod = 2 ^ 32

abbrev add_if : Bool → ℕ → ℕ → ℕ
add_if b n len = if b then (len + n) % usize_mod else len

-- The gas limit as a `u64`: `u64::MAX`, or `low_u64`.
unfoldable pub clamp_gas_limit : ℕ → ℕ
clamp_gas_limit gas_limit = if ltb u64_max gas_limit then u64_max else gas_limit % 2 ^ 64

module _ (W : WeightOps) (P : EvmPallet W) where
  open W use {Weight, proof_size}
  open P use {
    H160, AccessItem, Config, State, RunnerError, DispatchError, CallInfo, CreateInfo, config,
    with_estimate, gas_to_weight, encoded_size, into_dispatch_error,
  }

  -- `Runner::call` and `Runner::create`
  pub record Runner : Type 0 where
    pub call : H160 → RunnerArgs W P → State → Result RunnerError CallInfo × State
    pub create : RunnerArgs W P → State → Result RunnerError CreateInfo × State

  -- `estimated_transaction_len` of `call`
  unfoldable pub call_transaction_len : Request W P → ℕ
  call_transaction_len r =
      let estimated_transaction_len = (length r.input + 258) % usize_mod in
      add_if (is_some r.access_list) (encoded_size r.access_list) estimated_transaction_len

  -- `estimated_transaction_len` of `create`
  unfoldable pub create_transaction_len : Request W P → ℕ
  create_transaction_len r =
      let len₁ = (length r.input + 190) % usize_mod in
      let len₂ = add_if (is_some r.max_fee_per_gas) 32 len₁ in
      let len₃ = add_if (is_some r.max_priority_fee_per_gas) 32 len₂ in
      add_if (is_some r.access_list) (encoded_size r.access_list) len₃

  -- The match on the weight of the gas limit.
  unfoldable pub weight_and_proof_size : ℕ → ℕ → Option Weight × Option ℕ
  weight_and_proof_size gas_limit estimated_transaction_len =
      let weight_limit = gas_to_weight gas_limit true in
      if ltb 0 (proof_size weight_limit)
      then (some weight_limit, some estimated_transaction_len)
      else (none, none)

  -- `config`, and `config.as_ref().unwrap_or(…)`
  abbrev pub run_config : Bool → Config
  run_config estimate =
      let config' = if estimate then some (with_estimate config) else none in
      unwrap_or config' config

  -- The arguments handed to the runner, from the request and its estimated length.
  -- `unique_saturated_into` is from `u64` to `u64`.
  abbrev pub runner_args : Request W P → ℕ → RunnerArgs W P
  runner_args r estimated_transaction_len =
      let gas_limit = clamp_gas_limit r.gas_limit in
      let limits = weight_and_proof_size gas_limit estimated_transaction_len in
      record {
        source = r.source;
        input = r.input;
        value = r.value;
        gas_limit = gas_limit;
        max_fee_per_gas = r.max_fee_per_gas;
        max_priority_fee_per_gas = r.max_priority_fee_per_gas;
        nonce = r.nonce;
        access_list = unwrap_or r.access_list [];
        is_transactional = false;
        validate = true;
        weight_limit = limits.0;
        proof_size_base_cost = limits.1;
        config = run_config r.estimate;
      }

  module _ (R : Runner) where
    -- `call`
    unfoldable pub evm_call : H160 → Request W P → State → Result DispatchError CallInfo × State
    unfolding clamp_gas_limit weight_and_proof_size call_transaction_len
    evm_call to r s =
        let (result, s') = R.call to (runner_args r (call_transaction_len r)) s in
        (map_err into_dispatch_error result, s')

    -- `create`
    unfoldable pub evm_create : Request W P → State → Result DispatchError CreateInfo × State
    unfolding clamp_gas_limit weight_and_proof_size create_transaction_len
    evm_create r s =
        let (result, s') = R.create (runner_args r (create_transaction_len r)) s in
        (map_err into_dispatch_error result, s')
