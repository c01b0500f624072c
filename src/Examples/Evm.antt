-- ===== src/Examples/Evm.antt =====
-- The Ethereum API and the hooks of self-contained calls of the runtime over numbers as addresses, states and errors.
use testchain.Base.{
  ℕ, ◌+◌, ◌*◌, ◌^◌, Bool, true, false, Option, none, some, List, [], ◌∷◌, ◌≡◌, refl, length,
  is_some,
}
use testchain.Base.Words.{u64_max, saturating_add}
use testchain.Base.Result.{ok, err}
use testchain.Weight.{WeightOps}
use testchain.RuntimeApi.Ethereum.{
  EvmPallet, Request, Runner, call_transaction_len, create_transaction_len, evm_call, evm_create,
}
use testchain.RuntimeApi.Estimates.{granted_args, answer, evm_api_lem}
use testchain.RuntimeApi.Calls.{
  Frontier, EthereumCall, transact, other_ethereum, Hooks, RuntimeCall, ethereum,
  runtime_is_self_contained, runtime_check_self_contained, runtime_validate_self_contained,
  runtime_pre_dispatch_self_contained, runtime_apply_self_contained,
}
use testchain.RuntimeApi.SelfContained.{is_transact, IsFrontier, self_contained_hooks}

abbrev gas_weights : WeightOps
gas_weights = record {
  Weight = ℕ × ℕ;
  DbWeight = ℕ × ℕ;
  from_parts = λ r p. (r, p);
  ref_time = λ w. w.0;
  proof_size = λ w. w.1;
  saturating_add_weight = λ v w. (saturating_add u64_max v.0 w.0, saturating_add u64_max v.1 w.1);
  reads = λ db n. (db.0 * n, 0);
  writes = λ db n. (db.1 * n, 0);
}

abbrev encoded : Option (List ℕ) → ℕ
encoded none = 1
encoded (some items) = 2 + 20 * length items

abbrev pallet : EvmPallet gas_weights
pallet = record {
  H160 = ℕ;
  AccessItem = ℕ;
  Config = Bool;
  State = ℕ;
  RunnerError = ℕ;
  DispatchError = ℕ;
  CallInfo = ℕ;
  CreateInfo = ℕ;
  config = false;
  with_estimate = λ c. true;
  gas_to_weight = λ gas base. (gas, 5);
  encoded_size = encoded;
  into_dispatch_error = λ e. e;
}

abbrev runner : Runner gas_weights pallet
runner = record { call = λ to args s. (ok args.gas_limit, s + to); create = λ args s. (err 1, s) }

-- A request with more gas than a `u64` holds.
abbrev request : Request gas_weights pallet
request = record {
  source = 9;
  input = 1 ∷ 2 ∷ [];
  value = 0;
  gas_limit = 2 ^ 65;
  max_fee_per_gas = some 3;
  max_priority_fee_per_gas = none;
  nonce = none;
  estimate = true;
  access_list = some (4 ∷ []);
}

evm_api_lem_example :
    (evm_call gas_weights pallet runner 7 request 100
      ≡ answer gas_weights pallet (
          runner.call 7
            (granted_args gas_weights pallet request
              (call_transaction_len gas_weights pallet request))
            100))
    × (evm_create gas_weights pallet runner request 100
        ≡ answer gas_weights pallet (
            runner.create
              (granted_args gas_weights pallet request
                (create_transaction_len gas_weights pallet request))
              100))
evm_api_lem_example = evm_api_lem gas_weights pallet runner 7 request 100

abbrev frontier : Frontier
frontier = record {
  Transaction = ℕ;
  OtherEthereumCall = ℕ;
  OtherCall = ℕ;
  SignedInfo = ℕ;
  DispatchInfo = ℕ;
  Validity = ℕ;
  ValidityError = ℕ;
  DispatchResult = ℕ;
  State = ℕ;
}

abbrev for_transact : {A : Type 0} → EthereumCall frontier → A → Option A
for_transact (transact t) a = some a
for_transact (other_ethereum c) a = none

abbrev hooks : Hooks frontier
hooks = record {
  is_self_contained = is_transact frontier;
  check_self_contained = λ call s. for_transact call (ok 5);
  validate_self_contained = λ call info d len s. for_transact call (ok len);
  pre_dispatch_self_contained = λ call info d len s. for_transact call (err s);
  dispatch = λ call origin s. (0, s + 1);
}

for_transact_lem :
    {A : Type 0} (call : EthereumCall frontier) (a : A)
    → is_some (for_transact call a) ≡ is_transact frontier call
for_transact_lem (transact t) a = refl
for_transact_lem (other_ethereum c) a = refl

hooks-IsFrontier : IsFrontier frontier hooks
hooks-IsFrontier = record {
  self_contained = λ call. refl;
  check = λ call s. for_transact_lem call (ok 5);
  validate = λ call info d len s. for_transact_lem call (ok len);
  pre_dispatch = λ call info d len s. for_transact_lem call (err s);
}

self_contained_hooks_example :
    let call : RuntimeCall frontier = ethereum (transact 3) in
    let b = runtime_is_self_contained frontier hooks call in
    (is_some (runtime_check_self_contained frontier hooks call 1) ≡ b)
    × (is_some (runtime_validate_self_contained frontier hooks call 2 3 4 1) ≡ b)
    × (is_some (runtime_pre_dispatch_self_contained frontier hooks call 2 3 4 1) ≡ b)
    × (is_some (runtime_apply_self_contained frontier hooks call 2 1).0 ≡ b)
self_contained_hooks_example =
    self_contained_hooks frontier hooks hooks-IsFrontier (ethereum (transact 3)) 2 3 4 1
