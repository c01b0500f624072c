-- ===== src/RuntimeApi/Estimates.antt =====
-- What `call` and `create` of runtime/src/apis.rs hand to the runner of the EVM.
use testchain.Base.{
  ltb, ℕ, ◌+◌, ◌≤◌, ◌<◌, ◌^◌, true, false, Option, none, some, List, [], ◌∷◌, ◌≡◌, ap, min,
  if◌then◌else◌, length, unwrap_or, is_some, arith,
}
use testchain.Base.Words.{u64_max}
use testchain.Base.Result.{Result, map_err}
use testchain.Weight.{WeightOps}
use testchain.RuntimeApi.Ethereum.{
  EvmPallet, Request, RunnerArgs, Runner, call_transaction_len, create_transaction_len,
  clamp_gas_limit, weight_and_proof_size, runner_args, evm_call, evm_create,
}

abbrev pub sum : List ℕ → ℕ
sum [] = 0
sum (n ∷ ns) = n + sum ns

-- The parts of the heaviest transaction type, EIP-1559: pallet index, call index, variant, chain id,
-- nonce, the two fees, gas limit, action, value, empty access list, signature.
abbrev pub eip1559_parts : List ℕ
eip1559_parts = 1 ∷ 1 ∷ 1 ∷ 8 ∷ 32 ∷ 32 ∷ 32 ∷ 32 ∷ 21 ∷ 32 ∷ 1 ∷ 65 ∷ []

-- The parts of a creation: sender, value, gas limit, nonce, action variant, chain id, signature.
abbrev pub create_parts : List ℕ
create_parts = 20 ∷ 32 ∷ 32 ∷ 32 ∷ 1 ∷ 8 ∷ 65 ∷ []

-- An optional fee of 32 bytes.
abbrev pub fee_part : Option ℕ → ℕ
fee_part none = 0
fee_part (some fee) = 32

-- Any `U256` gas limit becomes the nearest `u64`.
pub clamp_gas_limit-eq-min : (gas_limit : ℕ) → clamp_gas_limit gas_limit ≡ min gas_limit u64_max
unfolding clamp_gas_limit
clamp_gas_limit-eq-min gas_limit = ground arith

module _ (W : WeightOps) (P : EvmPallet W) where
  -- The bytes of an access list that is given.
  abbrev pub access_part : Option (List P.AccessItem) → ℕ
  access_part access_list = if is_some access_list then P.encoded_size access_list else 0

  -- For requests whose parts fit in a `usize`, the estimated transaction lengths are the sums of the
  -- documented parts, and the estimate of a creation never exceeds that of a call with the same
  -- fields.
  transaction_len_parts :
      (r : Request W P)
      → length r.input + 258 + access_part r.access_list < 2 ^ 32
      → (call_transaction_len W P r
          ≡ length r.input + sum eip1559_parts + access_part r.access_list)
        × (create_transaction_len W P r
            ≡ length r.input
              + sum create_parts
              + fee_part r.max_fee_per_gas
              + fee_part r.max_priority_fee_per_gas
              + access_part r.access_list)
        × (create_transaction_len W P r ≤ call_transaction_len W P r)
  unfolding call_transaction_len create_transaction_len
  transaction_len_parts r fits = (ground arith, ground arith, ground arith)

  -- The arguments of a run by their meaning: the request's own, with the gas limit cut off at the
  -- largest `u64`, an absent access list made empty, no transaction opened, validation on, and the
  -- two limits of the proof size.
  abbrev pub expected_args : Request W P → Option W.Weight → Option ℕ → RunnerArgs W P
  expected_args r weight_limit proof_size_base_cost = record {
    source = r.source;
    input = r.input;
    value = r.value;
    gas_limit = min r.gas_limit u64_max;
    max_fee_per_gas = r.max_fee_per_gas;
    max_priority_fee_per_gas = r.max_priority_fee_per_gas;
    nonce = r.nonce;
    access_list = unwrap_or r.access_list [];
    is_transactional = false;
    validate = true;
    weight_limit = weight_limit;
    proof_size_base_cost = proof_size_base_cost;
    config = if r.estimate then P.with_estimate P.config else P.config;
  }

  -- The arguments with the limits of the proof: both the weight of the cut gas limit and the
  -- estimated length, where that weight has a proof size, and neither where it has none.
  abbrev pub granted_args : Request W P → ℕ → RunnerArgs W P
  granted_args r len =
      let weight = P.gas_to_weight (min r.gas_limit u64_max) true in
      if ltb 0 (W.proof_size weight)
      then expected_args r (some weight) (some len)
      else expected_args r none none

  runner_args_lem : (r : Request W P) (len : ℕ) → runner_args W P r len ≡ granted_args r len
  unfolding weight_and_proof_size
  runner_args_lem r len = rw (clamp_gas_limit-eq-min r.gas_limit) (ground arith)

  -- The answer of the API, from what the runner returns: its error is converted, and the state is
  -- the one that it leaves.
  abbrev pub answer :
      {A : Type 0} → Result P.RunnerError A × P.State → Result P.DispatchError A × P.State
  answer (result, s) = (map_err P.into_dispatch_error result, s)

  -- `call` and `create` run the EVM once, on the arguments that `granted_args` gives by their
  -- meaning and with their own estimates of the length, and answer with what the run returned.
  pub evm_api_lem :
      (R : Runner W P) (to : P.H160) (r : Request W P) (s : P.State)
      → (evm_call W P R to r s ≡ answer (R.call to (granted_args r (call_transaction_len W P r)) s))
        × (evm_create W P R r s
            ≡ answer (R.create (granted_args r (create_transaction_len W P r)) s))
  unfolding evm_call evm_create
  evm_api_lem R to r s = (
    ap (λ a. answer (R.call to a s)) (runner_args_lem r (call_transaction_len W P r)),
    ap (λ a. answer (R.create a s)) (runner_args_lem r (create_transaction_len W P r)),
  )
